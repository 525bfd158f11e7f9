-- ===== src/Exposed/Properties.antt =====
-- Reading and writing properties.
use wotpy.Prelude.{
  ℕ, String, ◌≡◌, refl, false, Option, none, some, List, [], ◌∷◌, ◌++◌, ◌==◌, nat_eq, string_eq,
  eq_iff, find?, arith, if◌then◌else◌,
}
use wotpy.Outcome.{is_ok, ok, raised, type_error}
use mathlib.Core.List.{append-nil, append_assoc}
use wotpy.Dict.{Dict, values, keys, get}
use wotpy.Dict.Laws.{get-set}
use wotpy.Thing.{
  Interaction, InteractionType, property, Thing, is_match, find_interaction, writable,
}
use wotpy.Thing.Unique.{clashes, Apart, Distinct}
use wotpy.Thing.WellFormed.{Keyed, IsWellFormed}
use wotpy.Exposed.{
  Platform, retrieve_property, update_property, ExposedThing, EmittedEvent, property_change,
  property_change_init, emit, read_property, write_property, handle_write_property,
  default_retrieve_property_handler, default_update_property_handler, find_normalized_name,
  set_property_value, normalized, property_read, get_property_value,
}

module _ (slugify : String → String) where
  -- What a dictionary holds for a name stands in it under that name, and is no clash with the rest.
  Apart-get :
      (y i : Interaction) (name : String) (d : Dict String Interaction) (rest : List Interaction)
      → Apart slugify y (values d ++ rest)
      → get name d ≡ some i
      → clashes slugify y i ≡ false
  unfolding get
  Apart-get y i name [] rest h g = ground arith
  Apart-get y i name ((k, j) ∷ d) rest h g = ground (arith, Apart-get y i name d rest)

  name-get :
      (kind : InteractionType) (oid : ℕ) (i : Interaction) (name : String)
      (d : Dict String Interaction)
      → Keyed kind oid d
      → get name d ≡ some i
      → i.name ≡ name
  unfolding get
  name-get kind oid i name [] h g = ground arith
  name-get kind oid i name ((k, j) ∷ d) h g =
      ground (arith, name-get kind oid i name d, eq_iff k name)

  find?-get :
      (kind : InteractionType) (oid : ℕ) (i : Interaction) (name : String)
      (d : Dict String Interaction) (rest : List Interaction)
      → Keyed kind oid d
      → Distinct slugify (values d ++ rest)
      → get name d ≡ some i
      → find? (is_match slugify name) (values d ++ rest) ≡ some i
  unfolding get
  find?-get kind oid i name [] rest k h g = ground arith
  find?-get kind oid i name ((j, x) ∷ d) rest k h g = ground (
    arith,
    find?-get kind oid i name d rest,
    Apart-get x i name d rest,
    name-get kind oid i name d,
    eq_iff j name,
    eq_iff x.name name,
    eq_iff (slugify x.name) name,
    eq_iff i.name x.name,
    eq_iff i.name (slugify x.name),
  )

  -- In a well-formed Thing the search through all interactions finds the property of a key.
  pub find_interaction-property :
      (t : Thing) (i : Interaction) (name : String)
      → IsWellFormed slugify t
      → get name t.properties ≡ some i
      → find_interaction slugify name t ≡ some i
  unfolding find_interaction
  find_interaction-property t i name w g =
      find?-get property t.oid i name t.properties _ w.properties_Keyed w.distinct g

module _ (p : Platform) (slugify : String → String) where
  open p use {Value, null, Handler, call}

  -- A write and a read of properties that have no handlers of their own.
  pub write_default :
      (s : ExposedThing p) (i : Interaction) (name : String) (v : Value)
      → IsWellFormed slugify s.thing
      → get name s.thing.properties ≡ some i
      → get i.oid (s.handlers update_property) ≡ none
      → write_property p slugify name v s
        ≡ (ok tt, emit p property_change (property_change_init name v) (set_property_value p i v s))
  unfolding write_property default_update_property_handler
  write_default s i name v w g h =
      ground (arith, find_interaction-property slugify s.thing i name w g)

  pub read_default :
      (s : ExposedThing p) (i : Interaction) (name : String)
      → IsWellFormed slugify s.thing
      → get name s.thing.properties ≡ some i
      → get i.oid (s.handlers retrieve_property) ≡ none
      → read_property p slugify name s ≡ (ok (get_property_value p i s), s)
  unfolding read_property default_retrieve_property_handler
  read_default s i name w g h = ground (arith, find_interaction-property slugify s.thing i name w g)

  -- In a well-formed Thing, with no handlers of their own, a read of a property after a write of another or the same one
  -- returns the value that was written where the two are one object, and else what a read before
  -- the write returns.
  pub read_property-write_property :
      (s : ExposedThing p) (i j : Interaction) (name other : String) (v : Value)
      → IsWellFormed slugify s.thing
      → get name s.thing.properties ≡ some i
      → get other s.thing.properties ≡ some j
      → get i.oid (s.handlers update_property) ≡ none
      → get j.oid (s.handlers retrieve_property) ≡ none
      → (read_property p slugify other (write_property p slugify name v s).1).0
        ≡ (if i.oid == j.oid then ok v else (read_property p slugify other s).0)
  read_property-write_property s i j name other v w g g' h k =
      let written = write_default s i name v w g h in
      let before = read_default s j other w g' k in
      let after =
        read_default
          (emit p property_change (property_change_init name v) (set_property_value p i v s)) j
          other w g' k in
      rw (written, after, before, get-set i.oid j.oid v s.property_values) (ground arith)

  -- The events that the property's own write handler emits while it runs
  abbrev pub by_handler : Value → ExposedThing p → Option Handler → List (EmittedEvent Value)
  by_handler v s none = []
  by_handler v s (some handler) = (call handler (v ∷ []) s.property_values s.world).1.emitted

  abbrev pub of_property : Value → ExposedThing p → Option Interaction → List (EmittedEvent Value)
  of_property v s none = []
  of_property v s (some i) = by_handler v s (get i.oid (s.handlers update_property))

  abbrev pub handler_events : String → Value → ExposedThing p → List (EmittedEvent Value)
  handler_events name v s = of_property v s (get name s.thing.properties)

  abbrev pub change_event : String → Value → EmittedEvent Value
  change_event name v = record { init = property_change_init name v; name = property_change }

  -- A write emits what the property's own handler emits, and after it, exactly where it succeeds, one
  -- property change with the name and the value; the Thing and the handlers stay as they are.
  pub write_property_emits :
      (s : ExposedThing p) (name : String) (v : Value)
      → ((write_property p slugify name v s).1.thing ≡ s.thing)
        × ((write_property p slugify name v s).1.handlers ≡ s.handlers)
        × ((write_property p slugify name v s).1.events_stream ≡ (
            s.events_stream
            ++ (handler_events name v s
                ++ (if is_ok (write_property p slugify name v s).0
                    then change_event name v ∷ []
                    else []))))
  unfolding write_property default_update_property_handler
  write_property_emits s name v = (ground arith, ground arith, events)
    where
      events : (write_property p slugify name v s).1.events_stream ≡ (
          s.events_stream
          ++ (handler_events name v s
              ++ (if is_ok (write_property p slugify name v s).0
                  then change_event name v ∷ []
                  else [])))
      events = ground (
        arith,
        append-nil s.events_stream,
        append-nil (handler_events name v s),
        append_assoc s.events_stream (handler_events name v s) (change_event name v ∷ []),
      )

  pub normalized-get :
      (i : Interaction) (name key : String) (oid : ℕ) (d : Dict String Interaction)
      (rest : List Interaction)
      → Keyed property oid d
      → Distinct slugify (values d ++ rest)
      → get key d ≡ some i
      → slugify name ≡ slugify key
      → find? (λ k. slugify k == slugify name) (keys d) ≡ some key
  unfolding get
  normalized-get i name key oid [] rest k d g e = ground arith
  normalized-get i name key oid ((j, x) ∷ c) rest k d g e = ground (
    arith,
    normalized-get i name key oid c rest,
    Apart-get slugify x i key c rest,
    name-get slugify property oid i key c,
    eq_iff j key,
    eq_iff (slugify j) (slugify name),
    eq_iff (slugify i.name) (slugify x.name),
    eq_iff (slugify key) (slugify key),
  )

  -- In a well-formed Thing an external write may use any name with the URL name of the property. It writes the property if
  -- that is writable; otherwise it raises a TypeError and changes nothing.
  pub handle_write_property_lem :
      (s : ExposedThing p) (i : Interaction) (name key : String) (v : Value)
      → IsWellFormed slugify s.thing
      → get key s.thing.properties ≡ some i
      → slugify name ≡ slugify key
      → handle_write_property p slugify name v s ≡ (
          if writable i
          then write_property p slugify key v s
          else (raised (type_error "Property is non-writable"), s))
  unfolding handle_write_property find_normalized_name
  handle_write_property_lem s i name key v w g e = ground (
    arith,
    normalized-get i name key s.thing.oid s.thing.properties
        (values s.thing.actions ++ values s.thing.events) w.properties_Keyed w.distinct g e,
  )

  -- An object for a property, built from any name with its URL name, reads the property.
  pub property_read_lem :
      (s : ExposedThing p) (i : Interaction) (name key : String)
      → IsWellFormed slugify s.thing
      → get key s.thing.properties ≡ some i
      → slugify name ≡ slugify key
      → property_read p slugify name s ≡ read_property p slugify key s
  unfolding property_read normalized find_normalized_name
  property_read_lem s i name key w g e =
      rw
        (normalized-get i name key s.thing.oid s.thing.properties
          (values s.thing.actions ++ values s.thing.events) w.properties_Keyed w.distinct g e)
        refl
