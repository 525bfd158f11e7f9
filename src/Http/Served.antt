-- ===== src/Http/Served.antt =====
-- The HTTP client and the HTTP server.
use wotpy.Prelude.{
  ℕ, String, Bool, ◌≡◌, ◌∙◌, refl, ap, true, false, Option, none, some, List, [], ◌∷◌, ◌++◌, nat_eq,
  string_eq, Text,
}
use wotpy.Outcome.{Error, Outcome, ok, raised, go_on}
use wotpy.Json.{Json}
use wotpy.Thing.{Interaction}
use wotpy.Exposed.{Platform, ExposedThing}
use wotpy.Clients.{Urls, FormDict, ThingDescription, get_property_forms, pick_http_href}
use wotpy.Http.Handlers.{
  Codec, Reply, written, empty_reply, unauthorized, is_named, authorized, on_exposed_thing,
  property_get, property_put, write_body, on_json_body,
}
use wotpy.Http.Safety.{AreOthers}
use wotpy.Http.ReadBack.{IsServed, property_get-property_put}
use wotpy.Http.Client.{
  HttpRequest, HttpLibrary, HttpClient, no_credential, build_request, picked, sign_request,
  sign_and_fetch, retrying, or_retry, http_write_property, http_read_property,
}

module _ (p : Platform) (c : Codec p) (lib : HttpLibrary (List (ExposedThing p)) c.Body)
    (check : Option Text → String → Outcome Bool) where
  open lib use {fetch, loads, dumps}

  -- Requests to a URL go to the server's handlers of a property, under its credentials for the request's
  -- header, and their replies come back as the library says.
  pub record IsDelivered (respond : Reply c.Body → Outcome c.Body) (href thing_name name : String)
      : Type 0 where
    pub puts :
        (request : HttpRequest c.Body) (body : c.Body) (things : List (ExposedThing p))
        → request.href ≡ href
        → request.method ≡ "PUT"
        → request.body ≡ some body
        → fetch request things
          ≡ let (reply, things') =
              property_put p c (check request.authorization) thing_name name body things in
            (respond reply, things')
    pub gets :
        (request : HttpRequest c.Body) (things : List (ExposedThing p))
        → request.href ≡ href
        → request.method ≡ "GET"
        → fetch request things
          ≡ let (reply, things') =
              property_get p c (check request.authorization) thing_name name things in
            (respond reply, things')
    pub document : (b : c.Body) → respond (written b) ≡ ok b

  module _ (urls : Urls) (client : HttpClient) (text_of : Json → String)
      (respond : Reply c.Body → Outcome c.Body) (td : ThingDescription) (forms : List FormDict)
      (href thing_name name : String) (delivered : IsDelivered respond href thing_name name)
      (has_forms : get_property_forms td name ≡ ok forms)
      (picks : pick_http_href urls td.base forms none ≡ some href) where
    abbrev sent : Outcome c.Body → Outcome (Unit {0})
    sent (ok b) = ok tt
    sent (raised e) = raised e

    reads :
        (things : List (ExposedThing p)) (timeout : Option ℕ) (v : Json) (answer : c.Body)
        → client.credential ≡ no_credential
        → (property_get p c (check none) thing_name name things).0 ≡ written answer
        → loads answer ≡ ok v
        → (http_read_property lib urls client text_of td name timeout things).0 ≡ ok v
    unfolding http_read_property picked sign_request sign_and_fetch retrying or_retry
    reads things timeout v answer unsigned got understood =
        rw
          (
            has_forms,
            picks,
            unsigned,
            delivered.gets (build_request client href "GET" none timeout) things refl refl,
            got,
            delivered.document answer,
            understood,
          )
          refl

    sends :
        (v : Json) (body : c.Body) (timeout : Option ℕ) (things : List (ExposedThing p))
        → dumps v ≡ ok body
        → let (reply, things') = property_put p c (check none) thing_name name body things in
          http_write_property lib urls client text_of td name v timeout things
          ≡ (sent (respond reply), things')
    unfolding http_write_property picked
    sends v body timeout things dumped =
        let q = property_put p c (check none) thing_name name body things in
        rw
          (
            has_forms,
            picks,
            dumped,
            delivered.puts (build_request client href "PUT" (some body) timeout) body things refl
                refl refl,
          )
          (go (respond q.0) q.1)
      where
        go :
            (r : Outcome c.Body) (things' : List (ExposedThing p))
            → go_on r (λ b x. (ok tt, x)) things' ≡ (sent r, things')
        go (ok b) things' = refl
        go (raised e) things' = refl

    -- For a client without a credential, and a URL whose requests reach a writable property without handlers
    -- of its own of a well-formed Thing of the server that lets requests without a header pass: the
    -- client writes a value whose text the server understands, and its next read returns the
    -- value that its text of the server's value stands for.
    pub http_read_property-http_write_property :
        (key : String) (xs ys : List (ExposedThing p)) (e : ExposedThing p) (i : Interaction)
        (v v' : Json) (w : p.Value) (body answer empty : c.Body) (timeout timeout' : Option ℕ)
        → client.credential ≡ no_credential
        → IsServed p c (check none) thing_name name key xs e i
        → dumps v ≡ ok body
        → c.loads body ≡ ok w
        → c.dumps w ≡ ok answer
        → loads answer ≡ ok v'
        → respond empty_reply ≡ ok empty
        → let (sent', things) =
            http_write_property lib urls client text_of td name v timeout (xs ++ e ∷ ys) in
          (sent' ≡ ok tt)
          × ((http_read_property lib urls client text_of td name timeout' things).0 ≡ ok v')
    http_read_property-http_write_property key xs ys e i v v' w body answer empty timeout timeout'
          unsigned served dumped understood dumped' understood' accepted =
        let put = property_put p c (check none) thing_name name body (xs ++ e ∷ ys) in
        let wrote = sends v body timeout (xs ++ e ∷ ys) dumped in
        let (reply, things, got) =
          property_get-property_put p c (check none) thing_name name key xs ys e i body w served
            understood in
        (
          ap (λ q. q.0) wrote ∙ ap sent (ap respond reply ∙ accepted),
          ap (λ q. (http_read_property lib urls client text_of td name timeout' q.1).0) wrote
              ∙ reads put.1 timeout' v' answer unsigned (got ∙ rw dumped' refl) understood',
        )

    refused :
        (body' : ExposedThing p → Reply c.Body × ExposedThing p) (xs ys : List (ExposedThing p))
        (e : ExposedThing p)
        → AreOthers p c thing_name xs
        → is_named p c thing_name e ≡ true
        → check none e.thing.title ≡ ok false
        → authorized p c (check none) thing_name body' (xs ++ e ∷ ys)
          ≡ (unauthorized thing_name, xs ++ e ∷ ys)
    unfolding authorized on_exposed_thing
    refused body' [] ys e h named invalid = rw (named, invalid) refl
    refused body' (x ∷ xs) ys e h named invalid =
        rw (h.0, refused body' xs ys e h.1 named invalid) refl

    -- Whatever credential the client has: a server that refuses requests without a header, for the first
    -- Thing with the name, answers a write with status 401 and keeps its Things as they were; what the
    -- library makes of that answer is what the write raises.
    pub http_write_property-property_put :
        (xs ys : List (ExposedThing p)) (e : ExposedThing p) (v : Json) (body : c.Body)
        (timeout : Option ℕ) (err : Error)
        → AreOthers p c thing_name xs
        → is_named p c thing_name e ≡ true
        → check none e.thing.title ≡ ok false
        → dumps v ≡ ok body
        → respond (unauthorized thing_name) ≡ raised err
        → http_write_property lib urls client text_of td name v timeout (xs ++ e ∷ ys)
          ≡ (raised err, xs ++ e ∷ ys)
    unfolding property_put
    http_write_property-property_put xs ys e v body timeout err others named invalid dumped
          failure =
        sends v body timeout (xs ++ e ∷ ys) dumped
        ∙ rw
            (
              refused (on_json_body p c (c.loads body) (write_body p c name)) xs ys e others named
                  invalid,
              failure,
            )
            refl
