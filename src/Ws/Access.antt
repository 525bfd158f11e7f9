-- ===== src/Ws/Access.antt =====
-- Requests that write and read a property, down to the ExposedThing.
use wotpy.Prelude.{
  ℕ, String, ◌≡◌, ◌∙◌, refl, true, false, Option, none, some, [], ◌∷◌, ◌++◌, nat_eq, string_eq,
  arith,
}
use mathlib.Core.List.{append_assoc}
use wotpy.Outcome.{ok, Exec, pure, go_on}
use wotpy.Dict.{get}
use wotpy.Dict.Laws.{get-set}
use wotpy.Json.{Json, null, str, obj, end, field}
use wotpy.Thing.{Interaction, writable}
use wotpy.Thing.WellFormed.{IsWellFormed}
use wotpy.Exposed.{
  Platform, ExposedThing, retrieve_property, update_property, property_change, property_change_init,
  emit, set_property_value, get_property_value, handle_write_property,
}
use wotpy.Exposed.Properties.{write_default, read_default, handle_write_property_lem}
use wotpy.Ws.Messages.{response, is_id}
use wotpy.Ws.Handler.{
  Connection, handle_set_property, handle_get_property, on_exposed_thing, answer,
}
use wotpy.Ws.Subscriptions.{respond_open}

abbrev pub write_params : String → Json → Json
write_params name v = obj (field "name" (str name) (field "value" v end))

abbrev pub read_params : String → Json
read_params name = obj (field "name" (str name) end)

module _ (p : Platform) (slugify : String → String) (json_of : p.Value → Option Json)
    (value_of : Json → p.Value) (uuid : ℕ → String) where
  abbrev pub written : Interaction → String → Json → ExposedThing p → ExposedThing p
  written i name v e =
      emit p property_change (property_change_init name (value_of v))
        (set_property_value p i (value_of v) e)

  -- A body that ends well, on an open connection to a Thing, is answered by its result.
  answer_well :
      (s : Connection p slugify json_of value_of uuid) (e e' : ExposedThing p)
      (body : Exec (ExposedThing p) (Option Json)) (result msg_id : Json)
      → s.exposed ≡ some e
      → body e ≡ (ok (some result), e')
      → s.closed ≡ false
      → is_id msg_id ≡ true
      → answer p slugify json_of value_of uuid msg_id
          (on_exposed_thing p slugify json_of value_of uuid body)
          s
        ≡ (ok tt, record s { exposed = some e'; sent = s.sent ++ response result msg_id ∷ [] })
  unfolding on_exposed_thing
  answer_well s e e' body result msg_id there done open_ d =
      let next : Connection p slugify json_of value_of uuid = record s { exposed = some e' } in
      rw (there, done) (respond_open p slugify json_of value_of uuid result msg_id next open_ d)

  pub write_answer :
      (s : Connection p slugify json_of value_of uuid) (e : ExposedThing p) (i : Interaction)
      (name : String) (v msg_id : Json)
      → s.exposed ≡ some e
      → s.closed ≡ false
      → is_id msg_id ≡ true
      → IsWellFormed slugify e.thing
      → get name e.thing.properties ≡ some i
      → writable i ≡ true
      → get i.oid (e.handlers update_property) ≡ none
      → handle_set_property p slugify json_of value_of uuid (write_params name v) msg_id s ≡ (
        ok tt,
        record s {
          exposed = some (written i name v e);
          sent = s.sent ++ response null msg_id ∷ [];
        },
      )
  unfolding handle_set_property
  write_answer s e i name v msg_id there open_ d w g may h =
      let done : handle_write_property p slugify name (value_of v) e ≡ (ok tt, written i name v e) =
        handle_write_property_lem p slugify e i name name (value_of v) w g refl
        ∙ rw may (write_default p slugify e i name (value_of v) w g h) in
      answer_well s e (written i name v e) _ null msg_id there
        (λ k. go_on (done k).0 (λ _. pure (some null)) (done k).1) open_ d

  pub read_answer :
      (s : Connection p slugify json_of value_of uuid) (e : ExposedThing p) (i : Interaction)
      (name : String) (v msg_id : Json)
      → s.exposed ≡ some e
      → s.closed ≡ false
      → is_id msg_id ≡ true
      → IsWellFormed slugify e.thing
      → get name e.thing.properties ≡ some i
      → get i.oid (e.handlers retrieve_property) ≡ none
      → json_of (get_property_value p i e) ≡ some v
      → handle_get_property p slugify json_of value_of uuid (read_params name) msg_id s
        ≡ (ok tt, record s { exposed = some e; sent = s.sent ++ response v msg_id ∷ [] })
  unfolding handle_get_property
  read_answer s e i name v msg_id there open_ d w g h j =
      let done = read_default p slugify e i name w g h in
      answer_well s e e _ v msg_id there
        ((λ k. go_on (done k).0 (λ r. pure (json_of r)) (done k).1) ∙ (λ k. (ok (j k), e))) open_ d

  -- On an open connection to a well-formed Thing, a request that writes a writable property without
  -- handlers of its own is answered by null, and a request that reads it afterwards by the value that
  -- was written, if the application gives back the JSON form that it was given; each is answered once,
  -- under its own ID.
  pub handle_get_property-handle_set_property :
      (s : Connection p slugify json_of value_of uuid) (e : ExposedThing p) (i : Interaction)
      (name : String) (v first second : Json)
      → s.exposed ≡ some e
      → s.closed ≡ false
      → is_id first ≡ true
      → is_id second ≡ true
      → IsWellFormed slugify e.thing
      → get name e.thing.properties ≡ some i
      → writable i ≡ true
      → get i.oid (e.handlers update_property) ≡ none
      → get i.oid (e.handlers retrieve_property) ≡ none
      → json_of (value_of v) ≡ some v
      → let (r, t) =
          handle_set_property p slugify json_of value_of uuid (write_params name v) first s in
        let (q, u) =
          handle_get_property p slugify json_of value_of uuid (read_params name) second t in
        (r ≡ ok tt)
        × (q ≡ ok tt)
        × (u.sent ≡ s.sent ++ response null first ∷ response v second ∷ [])
  handle_get_property-handle_set_property s e i name v first second there open_ d d' w g may h h'
        j =
      let after : Connection p slugify json_of value_of uuid = record s {
        exposed = some (written i name v e);
        sent = s.sent ++ response null first ∷ [];
      } in
      let stored : json_of (get_property_value p i (written i name v e)) ≡ some v =
        rw (get-set i.oid i.oid (value_of v) e.property_values) (ground (arith, j)) in
      rw
        (
          write_answer s e i name v first there open_ d w g may h,
          read_answer after (written i name v e) i name v second refl open_ d' w g h' stored,
        )
        (refl, refl, append_assoc s.sent (response null first ∷ []) (response v second ∷ []))
