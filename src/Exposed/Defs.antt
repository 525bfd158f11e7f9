-- ===== src/Exposed/Defs.antt =====
-- The state and the operations of an ExposedThing. A coroutine runs to its end in one step. What an
-- application supplies (values, handlers, and what handlers do) is a `Platform`.
use wotpy.Prelude.{
  ℕ, String, not, Option, none, some, List, [], ◌∷◌, ◌++◌, ◌==◌, nat_eq, string_eq, find?,
  if◌then◌else◌,
}
use wotpy.Outcome.{
  value_error, key_error, type_error, not_implemented, Outcome, Exec, pure, throw, from_option,
  gets, modify, ◌>>=◌, ◌>>◌,
}
use wotpy.Dict
use wotpy.Dict.{Dict, keys}
use wotpy.Thing.{Interaction, Thing, writable, find_interaction}

pub data HandlerKey : Type 0 where
  retrieve_property update_property invoke observe : HandlerKey

-- wot/enums.py
pub data ChangeType : Type 0 where
  property_type action_type event_type : ChangeType

pub data ChangeMethod : Type 0 where
  added_method removed_method changed_method : ChangeMethod

-- The `init` of an emitted event.
pub data EventInit (Value : Type 0) : Type 0 where
  payload : Value → EventInit Value
  property_change_init : (name : String) (value : Value) → EventInit Value
  action_invocation_init : (action_name : String) (return_value : Value) → EventInit Value
  td_change_init :
      (td_change_type : ChangeType) (method : ChangeMethod) (name : String)
      (description : Option Value)
      → EventInit Value

pub record EmittedEvent (Value : Type 0) : Type 0 where
  pub init : EventInit Value
  pub name : String

-- What a handler leaves: the property values as they are after it, the events that it emitted through
-- the ExposedThing, and its own world.
pub record Effects (Value World : Type 0) : Type 0 where
  pub property_values : Dict ℕ Value
  pub emitted : List (EmittedEvent Value)
  pub world : World

-- `name_of` is the attribute `name` of a value; `describe` is `ThingDescription.from_thing` of a
-- Thing with `to_dict`, which raises where the description is not valid. A handler sees the values of
-- the properties, may write properties and emit events of its ExposedThing, and acts on a world of its
-- own; it adds and removes no interactions and sets no handlers.
pub record Platform : Type 1 where
  pub Value : Type 0
  pub null : Value
  pub name_of : Value → Outcome String
  pub describe : Thing → Outcome Value
  pub World : Type 0
  pub Handler : Type 0
  pub call : Handler → List Value → Dict ℕ Value → World → Outcome Value × Effects Value World

abbrev pub property_change : String
property_change = "propertychange"

abbrev pub action_invocation : String
action_invocation = "actioninvocation"

abbrev pub description_change : String
description_change = "descriptionchange"

module _ (p : Platform) where
  open p use {Value, null, name_of, describe, World, Handler, call}

  -- Handlers stand under the identity of their interaction. The defaults of `_handlers_global` are
  -- `none`. `events_stream` is all that the Subject has emitted.
  pub record ExposedThing : Type 0 where
    pub thing : Thing
    pub property_values : Dict ℕ Value
    pub handlers : HandlerKey → Dict ℕ Handler
    pub handlers_global : HandlerKey → Option Handler
    pub events_stream : List (EmittedEvent Value)
    pub world : World

  -- `self._events_stream.on_next(event)`
  abbrev pub emit : String → EventInit Value → ExposedThing → ExposedThing
  emit name init s = record s {
    events_stream = s.events_stream ++ (record { init = init; name = name }) ∷ [];
  }

  abbrev pub call_handler : Handler → List Value → Exec ExposedThing Value
  call_handler handler args s =
      let (r, left) = call handler args s.property_values s.world in
      (
        r,
        record s {
          property_values = left.property_values;
          events_stream = s.events_stream ++ left.emitted;
          world = left.world;
        },
      )

  abbrev pub set_property_value : Interaction → Value → ExposedThing → ExposedThing
  set_property_value prop value s = record s {
    property_values = Dict.set prop.oid value s.property_values;
  }

  abbrev pub or_null : Option Value → Value
  or_null none = null
  or_null (some v) = v

  abbrev pub get_property_value : Interaction → ExposedThing → Value
  get_property_value prop s = or_null (Dict.get prop.oid s.property_values)

  abbrev pub Handlers : Type 0
  Handlers = HandlerKey → Dict ℕ Handler

  abbrev put_at : HandlerKey → Dict ℕ Handler → Handlers → Handlers
  put_at retrieve_property d h = elim [ retrieve_property ↦ d | k ↦ h k ]
  put_at update_property d h = elim [ update_property ↦ d | k ↦ h k ]
  put_at invoke d h = elim [ invoke ↦ d | k ↦ h k ]
  put_at observe d h = elim [ observe ↦ d | k ↦ h k ]

  -- `_set_handler` with an interaction: `_handlers` has no table for `observe`.
  unfoldable pub set_handler : HandlerKey → Handler → Interaction → ExposedThing → ExposedThing
  set_handler observe handler interaction s = record s {
    handlers_global = elim [ observe ↦ some handler | k ↦ s.handlers_global k ];
  }
  set_handler key handler interaction s = record s {
    handlers = put_at key (Dict.set interaction.oid handler (s.handlers key)) s.handlers;
  }

  -- `_default_invoke_action_handler` fails.
  abbrev call_or_default : Option Handler → List Value → Exec ExposedThing Value
  call_or_default none args = throw (not_implemented "Undefined action handler")
  call_or_default (some handler) args = call_handler handler args

  abbrev first_of_two : Option Handler → Option Handler → Option Handler
  first_of_two none o = o
  first_of_two (some h) o = some h

  -- `_get_handler(INVOKE_ACTION, action)`
  unfoldable pub get_handler : HandlerKey → Interaction → ExposedThing → Option Handler
  get_handler key interaction s =
      first_of_two (Dict.get interaction.oid (s.handlers key)) (s.handlers_global key)

  module _ (slugify : String → String) where
    -- `_find_interaction`
    unfoldable pub find_or_raise : String → Exec ExposedThing Interaction
    find_or_raise name s =
        from_option (value_error "Interaction not found") (find_interaction slugify name s.thing) s

    unfoldable pub default_retrieve_property_handler : String → Exec ExposedThing Value
    unfolding find_or_raise
    default_retrieve_property_handler property_name = do
      prop ← find_or_raise property_name
      gets (get_property_value prop)

    unfoldable pub default_update_property_handler : String → Value → Exec ExposedThing (Unit {0})
    unfolding find_or_raise
    default_update_property_handler property_name value = do
      prop ← find_or_raise property_name
      modify (set_property_value prop value)

    -- `d[name]`
    abbrev pub item : String → Dict String Interaction → Exec ExposedThing Interaction
    item name d = from_option (key_error name) (Dict.get name d)

    abbrev pub read_by : String → Option Handler → Exec ExposedThing Value
    read_by name none = default_retrieve_property_handler name
    read_by name (some handler) = call_handler handler []

    unfoldable pub read_property : String → Exec ExposedThing Value
    read_property name s =
        (do
          proprty ← item name s.thing.properties
          read_by name (Dict.get proprty.oid (s.handlers retrieve_property)))
          s

    abbrev pub write_by : String → Value → Option Handler → Exec ExposedThing (Unit {0})
    write_by name value none = default_update_property_handler name value
    write_by name value (some handler) = call_handler handler (value ∷ []) >>= λ _. pure tt

    unfoldable pub write_property : String → Value → Exec ExposedThing (Unit {0})
    write_property name value s =
        (do
          proprty ← item name s.thing.properties
          write_by name value (Dict.get proprty.oid (s.handlers update_property))
          modify (emit property_change (property_change_init name value)))
          s

    -- `ExposedThingInteractionDict._find_normalized_name`
    unfoldable pub find_normalized_name : String → Dict String Interaction → Option String
    find_normalized_name name d = find? (λ key. slugify key == slugify name) (keys d)

    -- The object that `self.properties[name]` builds holds the normalized name.
    unfoldable pub handle_write_property : String → Value → Exec ExposedThing (Unit {0})
    unfolding find_normalized_name
    handle_write_property name value s =
        (do
          normalized ← from_option (key_error name) (find_normalized_name name s.thing.properties)
          proprty ← item normalized s.thing.properties
          if not (writable proprty)
              then throw (type_error "Property is non-writable")
              else write_property normalized value)
          s

    unfoldable pub invoke_action : String → Value → Exec ExposedThing Value
    unfolding get_handler
    invoke_action name input_value s =
        (do
          act ← item name s.thing.actions
          result ← call_or_default (get_handler invoke act s) (input_value ∷ [])
          modify (emit action_invocation (action_invocation_init name result))
          pure result)
          s
