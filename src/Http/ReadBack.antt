-- ===== src/Http/ReadBack.antt =====
-- What a client writes to a property by PUT, a client reads by GET.
use wotpy.Prelude.{
  String, ◌≡◌, ◌∙◌, refl, sym, ap, Bool, true, none, some, List, ◌∷◌, ◌++◌, nat_eq, string_eq,
  nat_beq_iff,
}
use wotpy.Outcome.{Outcome, ok}
use wotpy.Dict.{get}
use wotpy.Thing.{Interaction, writable}
use wotpy.Thing.WellFormed.{IsWellFormed}
use wotpy.Exposed.{
  Platform, ExposedThing, retrieve_property, update_property, read_property, property_read,
  handle_write_property, emit, property_change, property_change_init, set_property_value,
}
use wotpy.Exposed.Properties.{
  handle_write_property_lem, property_read_lem, read_property-write_property, write_default,
}
use wotpy.Http.Handlers.{
  Codec, empty_reply, is_named, property_get, property_put, read_body, write_body, on_json_body,
  reply_of_read, write_json,
}
use wotpy.Http.Safety.{AreOthers, authorized_found}

module _ (p : Platform) (c : Codec p) where
  open p use {Value}
  open c use {Body, loads, dumps, slugify}

  -- The names of a request lead to a writable property without handlers, of the first Thing with the
  -- name, which accepts the request's credentials.
  pub record IsServed (check : String → Outcome Bool) (thing_name name key : String)
      (xs : List (ExposedThing p)) (e : ExposedThing p) (i : Interaction) : Type 0 where
    pub others : AreOthers p c thing_name xs
    pub named : is_named p c thing_name e ≡ true
    pub valid : check e.thing.title ≡ ok true
    pub well_formed : IsWellFormed slugify e.thing
    pub held : get key e.thing.properties ≡ some i
    pub same_url_name : slugify name ≡ slugify key
    pub writes : writable i ≡ true
    pub no_update : get i.oid (e.handlers update_property) ≡ none
    pub no_retrieve : get i.oid (e.handlers retrieve_property) ≡ none

  pub put_done :
      (e : ExposedThing p) (check : String → Outcome Bool) (thing_name name key : String)
      (xs : List (ExposedThing p)) (i : Interaction) (v : Value)
      → IsServed check thing_name name key xs e i
      → handle_write_property p slugify name v e
        ≡ (ok tt, emit p property_change (property_change_init key v) (set_property_value p i v e))
  put_done e check thing_name name key xs i v s =
      handle_write_property_lem p slugify e i name key v s.well_formed s.held s.same_url_name
      ∙ rw s.writes (write_default p slugify e i key v s.well_formed s.held s.no_update)

  abbrev pub after : ExposedThing p → Interaction → String → Value → ExposedThing p
  after e i key v = emit p property_change (property_change_init key v) (set_property_value p i v e)

  property_put_done :
      (check : String → Outcome Bool) (thing_name name key : String) (xs ys : List (ExposedThing p))
      (e : ExposedThing p) (i : Interaction) (body : Body) (v : Value)
      → IsServed check thing_name name key xs e i
      → loads body ≡ ok v
      → property_put p c check thing_name name body (xs ++ e ∷ ys)
        ≡ (empty_reply, xs ++ after e i key v ∷ ys)
  unfolding property_put
  property_put_done check thing_name name key xs ys e i body v s loaded =
      authorized_found p c check thing_name (on_json_body p c (loads body) (write_body p c name)) xs
        ys e s.others s.named s.valid
      ∙ rw (loaded, put_done e check thing_name name key xs i v s) refl

  pub read_after :
      (check : String → Outcome Bool) (thing_name name key : String) (xs : List (ExposedThing p))
      (e : ExposedThing p) (i : Interaction) (v : Value)
      → IsServed check thing_name name key xs e i
      → (property_read p slugify name (after e i key v)).0 ≡ ok v
  read_after check thing_name name key xs e i v s =
      let wrote = write_default p slugify e i key v s.well_formed s.held s.no_update in
      let value =
        read_property-write_property p slugify e i i key key v s.well_formed s.held s.held
          s.no_update s.no_retrieve in
      ap (λ x. x.0)
        (property_read_lem p slugify (after e i key v) i name key s.well_formed s.held
          s.same_url_name)
      ∙ ap (λ x. (read_property p slugify key x.1).0) (sym wrote)
      ∙ value
      ∙ rw ((nat_beq_iff i.oid i.oid).1 refl) refl

  property_get_done :
      (check : String → Outcome Bool) (thing_name name key : String) (xs ys : List (ExposedThing p))
      (e : ExposedThing p) (i : Interaction) (v : Value)
      → IsServed check thing_name name key xs e i
      → (property_get p c check thing_name name (xs ++ after e i key v ∷ ys)).0
        ≡ write_json p c (dumps v)
  unfolding property_get
  property_get_done check thing_name name key xs ys e i v s =
      ap (λ x. x.0)
        (authorized_found p c check thing_name (read_body p c name) xs ys (after e i key v) s.others
          s.named s.valid)
      ∙ ap (reply_of_read p c) (read_after check thing_name name key xs e i v s)

  -- A PUT of a JSON document to a writable property without handlers of its own, of a well-formed
  -- Thing that is the first with the request's name and accepts the credentials, is answered with
  -- an empty reply and leaves the other Things as they are; the GET of the same property that
  -- follows answers with the JSON text of that value.
  pub property_get-property_put :
      (check : String → Outcome Bool) (thing_name name key : String) (xs ys : List (ExposedThing p))
      (e : ExposedThing p) (i : Interaction) (body : Body) (v : Value)
      → IsServed check thing_name name key xs e i
      → loads body ≡ ok v
      → let (reply, things) = property_put p c check thing_name name body (xs ++ e ∷ ys) in
        (reply ≡ empty_reply)
        × (things ≡ xs ++ (handle_write_property p slugify name v e).1 ∷ ys)
        × ((property_get p c check thing_name name things).0 ≡ write_json p c (dumps v))
  property_get-property_put check thing_name name key xs ys e i body v s loaded =
      let put = property_put_done check thing_name name key xs ys e i body v s loaded in
      let done = put_done e check thing_name name key xs i v s in
      (
        ap (λ x. x.0) put,
        ap (λ x. x.1) put ∙ ap (λ x. xs ++ x.1 ∷ ys) (sym done),
        ap (λ x. (property_get p c check thing_name name x.1).0) put
            ∙ property_get_done check thing_name name key xs ys e i v s,
      )
