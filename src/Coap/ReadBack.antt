-- ===== src/Coap/ReadBack.antt =====
-- What a client writes to a property over CoAP, a client reads.
use wotpy.Prelude.{
  String, Bool, ◌≡◌, ◌∙◌, refl, sym, ap, true, false, Option, some, List, [], ◌∷◌, ◌++◌, ◌==◌,
  string_eq, Text,
}
use wotpy.Outcome.{Outcome, ok}
use wotpy.Dict
use wotpy.Dict.{values}
use wotpy.Thing.{Interaction}
use wotpy.Exposed.{Platform, ExposedThing, handle_write_property}
use wotpy.Exposed.Properties.{normalized-get}
use wotpy.Http.{Codec, is_named}
use wotpy.Http.Safety.{AreOthers}
use wotpy.Http.ReadBack.{IsServed, put_done, after, read_after}
use wotpy.Coap.Resources.{
  CoapRequest, changed, on_titled, Answering, if_authorized, on_key, key_of, on_interaction,
  property_render_get, property_render_put, url_name_of, get_body, put_value, dumped,
  coap_reply_of_read,
}

module _ (p : Platform) (c : Codec p) where
  open p use {Value}
  open c use {Body, loads, dumps, slugify}

  titled_found :
      (name : String) (body : Answering p c) (xs ys : List (ExposedThing p)) (e : ExposedThing p)
      → AreOthers p c name xs
      → is_named p c name e ≡ true
      → on_titled p c name body (xs ++ e ∷ ys) ≡ ((body e).0, xs ++ (body e).1 ∷ ys)
  unfolding on_titled
  titled_found name body [] ys e h named = rw named refl
  titled_found name body (x ∷ xs) ys e h named =
      rw (h.0, titled_found name body xs ys e h.1 named) refl

  -- Both parts of the query are there: a Thing's name, and the URL name of a property.
  pub record AsksFor (thing_name key : String) (request : CoapRequest Body) : Type 0 where
    pub thing : Dict.get "thing" request.query ≡ some thing_name
    pub name : Dict.get "name" request.query ≡ some (slugify key)
    pub thing_given : (thing_name == "") ≡ false
    pub name_given : (slugify key == "") ≡ false

  module _ (check : List Text → String → Outcome Bool) (thing_name key : String)
      (xs ys : List (ExposedThing p)) where
    reaches :
        (missing : String) (find : ExposedThing p → Option String) (body : String → Answering p c)
        (request : CoapRequest Body) (e : ExposedThing p)
        → AsksFor thing_name key request
        → AreOthers p c thing_name xs
        → is_named p c thing_name e ≡ true
        → check request.options e.thing.title ≡ ok true
        → find e ≡ some key
        → on_interaction p c check missing find body request (xs ++ e ∷ ys)
          ≡ ((body key e).0, xs ++ (body key e).1 ∷ ys)
    unfolding on_interaction
    reaches missing find body request e asks others named valid found =
        rw (asks.thing, asks.name, asks.thing_given, asks.name_given)
          (titled_found thing_name
              (λ x.
                if_authorized p c (check request.options x.thing.title)
                  (λ y. on_key p c missing (find y) body y) x)
              xs ys e others named
            ∙ rw (valid, found) refl)

    module _ (e : ExposedThing p) (i : Interaction) (request : CoapRequest Body)
        (asks : AsksFor thing_name key request)
        (s : IsServed p c (check request.options) thing_name key key xs e i) where
      key_found :
          (q : CoapRequest Body)
          → AsksFor thing_name key q
          → key_of p c (url_name_of p c q) e.thing.properties ≡ some key
      key_found q a = rw a.name (
          normalized-get p slugify i key key e.thing.oid e.thing.properties
            (values e.thing.actions ++ values e.thing.events) s.well_formed.properties_Keyed
            s.well_formed.distinct s.held refl)

      put_reaches :
          (v : Value)
          → loads request.payload ≡ ok v
          → property_render_put p c check request (xs ++ e ∷ ys)
            ≡ (changed, xs ++ after p c e i key v ∷ ys)
      unfolding property_render_put
      put_reaches v loaded =
          (reaches "Property not found"
              (λ x. key_of p c (url_name_of p c request) x.thing.properties)
              (put_value p c (loads request.payload)) request e asks s.others s.named s.valid
              (key_found request asks)
            ∙ rw (loaded, put_done p c e (check request.options) thing_name key key xs i v s) refl)

      get_reaches :
          (v : Value) (read : CoapRequest Body)
          → AsksFor thing_name key read
          → check read.options e.thing.title ≡ ok true
          → (property_render_get p c check read (xs ++ after p c e i key v ∷ ys)).0
            ≡ dumped p c (dumps v)
      unfolding property_render_get
      get_reaches v read asks' valid =
          (ap (λ q. q.0)
              (reaches "Property not found"
                (λ x. key_of p c (url_name_of p c read) x.thing.properties) (get_body p c) read
                (after p c e i key v) asks' s.others s.named valid (key_found read asks'))
            ∙ ap (coap_reply_of_read p c)
                (read_after p c (check request.options) thing_name key key xs e i v s))

      -- A PUT of a JSON document to a writable property without handlers of its own, of a well-formed Thing
      -- that is the first with the request's name and accepts its credentials, changes that property
      -- alone, and a GET of it that the server accepts is answered with the JSON text of the value.
      pub property_render_get-property_render_put :
          (v : Value) (read : CoapRequest Body)
          → loads request.payload ≡ ok v
          → AsksFor thing_name key read
          → check read.options e.thing.title ≡ ok true
          → let (reply, things) = property_render_put p c check request (xs ++ e ∷ ys) in
            (reply ≡ changed)
            × (things ≡ xs ++ (handle_write_property p slugify key v e).1 ∷ ys)
            × ((property_render_get p c check read things).0 ≡ dumped p c (dumps v))
      property_render_get-property_render_put v read loaded asks' valid =
          let put = put_reaches v loaded in
          let done = put_done p c e (check request.options) thing_name key key xs i v s in
          (
            ap (λ q. q.0) put,
            ap (λ q. q.1) put ∙ ap (λ q. xs ++ q.1 ∷ ys) (sym done),
            ap (λ q. (property_render_get p c check read q.1).0) put
                ∙ get_reaches v read asks' valid,
          )
