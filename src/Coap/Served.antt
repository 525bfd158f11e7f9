-- ===== src/Coap/Served.antt =====
-- The CoAP client and the CoAP server.
use wotpy.Prelude.{
  ℕ, String, Bool, ◌≡◌, ◌∙◌, refl, ap, true, Option, none, some, List, [], ◌∷◌, ◌++◌, string_eq,
  Text,
}
use wotpy.Outcome.{Outcome, ok}
use wotpy.Dict.{Dict}
use wotpy.Json.{Json}
use wotpy.Thing.{Interaction}
use wotpy.Exposed.{Platform, ExposedThing}
use wotpy.Clients.{Urls, FormDict, ThingDescription, get_property_forms, pick_coap_href}
use wotpy.Http.{Codec}
use wotpy.Http.ReadBack.{IsServed}
use wotpy.Coap.Client.{
  CoapMessage, CoapResponse, CoapLibrary, coap_picked, coap_sign_request, coap_send,
  coap_write_property, coap_read_property,
}
use wotpy.Coap.Resources.{
  CoapRequest, CoapReply, content, changed, property_render_get, property_render_put,
}
use wotpy.Coap.ReadBack.{AsksFor, property_render_get-property_render_put}

module _ (p : Platform) (c : Codec p) (lib : CoapLibrary (List (ExposedThing p)) c.Body)
    (check : List Text → String → Outcome Bool) where
  open lib use {request, loads, dumps}

  -- Requests to a URI go to the property resource with its query and their options, and content comes back
  -- in time; `none_payload` is the empty payload.
  pub record ReachesResource (respond : CoapReply c.Body → CoapResponse c.Body) (uri : String)
      (query : Dict String String) (none_payload : c.Body) : Type 0 where
    pub puts :
        (msg : CoapMessage c.Body) (body : c.Body) (timeout : Option ℕ)
        (things : List (ExposedThing p))
        → msg.uri ≡ uri
        → msg.code ≡ "PUT"
        → msg.payload ≡ some body
        → request msg timeout things
          ≡ let (reply, things') =
              property_render_put p c check
                (record { query = query; payload = body; options = msg.options })
                things in
            (ok (some (respond reply)), things')
    pub gets :
        (msg : CoapMessage c.Body) (timeout : Option ℕ) (things : List (ExposedThing p))
        → msg.uri ≡ uri
        → msg.code ≡ "GET"
        → request msg timeout things
          ≡ let (reply, things') =
              property_render_get p c check
                (record { query = query; payload = none_payload; options = msg.options })
                things in
            (ok (some (respond reply)), things')
    pub document : (b : c.Body) → respond (content b) ≡ record { is_successful = true; payload = b }
    pub success : (respond changed).is_successful ≡ true

  module _ (urls : Urls) (header : Text) (respond : CoapReply c.Body → CoapResponse c.Body)
      (td : ThingDescription) (forms : List FormDict) (uri name : String)
      (query : Dict String String) (none_payload : c.Body)
      (reaches : ReachesResource respond uri query none_payload)
      (has_forms : get_property_forms td name ≡ ok forms)
      (picks_write : pick_coap_href urls td.base forms (some "writeproperty") ≡ some uri)
      (picks_read : pick_coap_href urls td.base forms (some "readproperty") ≡ some uri) where
    abbrev pub signed : Option (Outcome Text)
    signed = some (ok header)

    abbrev pub put_request : c.Body → CoapRequest c.Body
    put_request body = record { query = query; payload = body; options = header ∷ [] }

    abbrev pub get_request : CoapRequest c.Body
    get_request = record { query = query; payload = none_payload; options = header ∷ [] }

    writes :
        (v : Json) (body : c.Body) (timeout : Option ℕ) (things things' : List (ExposedThing p))
        → dumps v ≡ ok body
        → property_render_put p c check (put_request body) things ≡ (changed, things')
        → coap_write_property lib urls signed td name v timeout things ≡ (ok tt, things')
    unfolding coap_write_property coap_picked coap_send coap_sign_request
    writes v body timeout things things' dumped put =
        rw
          (
            has_forms,
            picks_write,
            dumped,
            reaches.puts
                (record { code = "PUT"; uri = uri; payload = some body; options = header ∷ [] })
                body timeout things refl refl refl,
            put,
            reaches.success,
          )
          refl

    reads :
        (v : Json) (answer : c.Body) (timeout : Option ℕ) (things : List (ExposedThing p))
        → (property_render_get p c check get_request things).0 ≡ content answer
        → loads answer ≡ ok v
        → (coap_read_property lib urls signed td name timeout things).0 ≡ ok v
    unfolding coap_read_property coap_picked coap_send coap_sign_request
    reads v answer timeout things got understood =
        rw
          (
            has_forms,
            picks_read,
            reaches.gets (record { code = "GET"; uri = uri; payload = none; options = header ∷ [] })
                timeout things refl refl,
            got,
            reaches.document answer,
            understood,
          )
          refl

    -- For a client whose credential signs with a header, and a URI with a form for each of the two operations,
    -- whose requests ask for a writable property without handlers of its own of a well-formed Thing that
    -- accepts the header: the client writes a value whose text the server understands, in
    -- time, and its next read returns the value that its text of the server's value stands for.
    pub coap_read_property-coap_write_property :
        (thing_name key : String) (xs ys : List (ExposedThing p)) (e : ExposedThing p)
        (i : Interaction) (v v' : Json) (w : p.Value) (body answer : c.Body)
        (timeout timeout' : Option ℕ)
        → AsksFor p c thing_name key (put_request body)
        → IsServed p c (check (header ∷ [])) thing_name key key xs e i
        → dumps v ≡ ok body
        → c.loads body ≡ ok w
        → c.dumps w ≡ ok answer
        → loads answer ≡ ok v'
        → let (sent, things) =
            coap_write_property lib urls signed td name v timeout (xs ++ e ∷ ys) in
          (sent ≡ ok tt) × ((coap_read_property lib urls signed td name timeout' things).0 ≡ ok v')
    coap_read_property-coap_write_property thing_name key xs ys e i v v' w body answer timeout
          timeout' asks served dumped understood dumped' understood' =
        let put = property_render_put p c check (put_request body) (xs ++ e ∷ ys) in
        let again : AsksFor p c thing_name key get_request = record {
          thing = asks.thing;
          name = asks.name;
          thing_given = asks.thing_given;
          name_given = asks.name_given;
        } in
        let (reply, things, got) =
          property_render_get-property_render_put p c check thing_name key xs ys e i
            (put_request body) asks served w get_request understood again served.valid in
        let wrote =
          writes v body timeout (xs ++ e ∷ ys) put.1 dumped (ap (λ r. (r, put.1)) reply) in
        (
          ap (λ q. q.0) wrote,
          ap (λ q. (coap_read_property lib urls signed td name timeout' q.1).0) wrote
              ∙ reads v' answer timeout' put.1 (got ∙ rw dumped' refl) understood',
        )
