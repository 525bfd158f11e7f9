-- ===== src/Exposed/Changes.antt =====
-- Adding and removing interactions, setting handlers, emitting events, and the observables.
use wotpy.Prelude.{
  ℕ, String, Bool, true, false, not, Option, none, some, List, ◌==◌, nat_eq, string_eq,
  if◌then◌else◌,
}
use wotpy.Outcome.{
  value_error, attribute_error, Outcome, ok, raised, Exec, pure, throw, lift, from_option, modify,
  ◌>>=◌, ◌>>◌,
}
use wotpy.Dict
use wotpy.Dict.{Dict}
use wotpy.Thing.{
  InteractionType, property, action, event, Form, Fragment, Interaction, Thing, observable,
  new_interaction, find_interaction, add_interaction, remove_interaction,
}
use wotpy.Exposed.Defs.{
  Platform, ChangeMethod, retrieve_property, update_property, invoke, ChangeType, property_type,
  action_type, event_type, added_method, removed_method, property_change, description_change,
  ExposedThing, EmittedEvent, EventInit, payload, property_change_init, action_invocation_init,
  td_change_init, emit, set_property_value, set_handler, item,
}

abbrev pub change_type : InteractionType → ChangeType
change_type property = property_type
change_type action = action_type
change_type event = event_type

module _ (p : Platform) where
  open p use {Value, null, name_of, describe, World, Handler, call}

  abbrev emit_change :
      ChangeType → ChangeMethod → String → Option Value → ExposedThing p → ExposedThing p
  emit_change type method name description =
      emit p description_change (td_change_init type method name description)

  -- `next(...)` over the observable's items; `throws` is `reactivex.throw`.
  pub data Observable : Type 0 where
    throws : String → Observable
    filtered : (EmittedEvent p.Value → Outcome Bool) → Observable

  -- `item.data.name`
  abbrev pub data_name : EventInit p.Value → Outcome String
  data_name (payload v) = name_of v
  data_name (property_change_init name value) = ok name
  data_name (action_invocation_init name value) = raised (attribute_error "name")
  data_name (td_change_init type method name description) = ok name

  abbrev pub same_name : String → Outcome String → Outcome Bool
  same_name name (ok n) = ok (n == name)
  same_name name (raised e) = raised e

  unfoldable pub event_filter : String → EmittedEvent p.Value → Outcome Bool
  event_filter name it = ok (it.name == name)

  unfoldable pub property_change_filter : String → EmittedEvent p.Value → Outcome Bool
  property_change_filter name it =
      if it.name == property_change then same_name name (data_name it.init) else ok false

  unfoldable pub td_change_filter : EmittedEvent p.Value → Outcome Bool
  td_change_filter it = ok (it.name == description_change)

  unfoldable pub on_event : String → ExposedThing p → Observable
  on_event name s =
      if not (Dict.contains name s.thing.events)
      then throws "Unknown event"
      else filtered (event_filter name)

  abbrev observe_property : String → Outcome Bool → Outcome Observable
  observe_property name (raised e) = raised e
  observe_property name (ok false) = ok (throws "Property is not observable")
  observe_property name (ok true) = ok (filtered (property_change_filter name))

  unfoldable pub on_td_change : ExposedThing p → Observable
  on_td_change s = filtered td_change_filter

  module _ (slugify : String → String) where
    abbrev on_found : String → Option Interaction → Outcome Observable
    on_found name none = ok (throws "Unknown property")
    on_found name (some interaction) = observe_property name (observable interaction)

    unfoldable pub on_property_change : String → ExposedThing p → Outcome Observable
    on_property_change name s = on_found name (find_interaction slugify name s.thing)

    unfoldable pub emit_event : String → Value → Exec (ExposedThing p) (Unit {0})
    emit_event event_name value s =
        (do
          from_option (value_error "Unknown event") (find_interaction slugify event_name s.thing)
          modify (emit p event_name (payload value)))
          s

    -- `self._thing.add_interaction(prop)`
    abbrev store_thing : Outcome Thing → Exec (ExposedThing p) (Unit {0})
    store_thing (raised e) = throw e
    store_thing (ok t) = modify (λ s. record s { thing = t })

    abbrev add_to_thing : Interaction → Exec (ExposedThing p) (Unit {0})
    add_to_thing i s = store_thing (add_interaction slugify i s.thing) s

    -- The event is built, with the description of the changed Thing, before it is emitted.
    abbrev announce : InteractionType → String → Exec (ExposedThing p) (Unit {0})
    announce kind name s =
        (do
          description ← lift (describe s.thing)
          modify (emit_change (change_type kind) added_method name (some description)))
          s

    -- `oid` is the identity of the new object, `forms` those of its initialization dictionary.
    unfoldable pub add_property :
        ℕ → String → Fragment → List Form → Value → Exec (ExposedThing p) (Unit {0})
    add_property oid name init forms value s =
        (do
          prop ← lift (new_interaction oid s.thing.oid name property init forms)
          add_to_thing prop
          modify (set_property_value p prop value)
          announce property name)
          s

    unfoldable pub set_action_handler : String → Handler → Exec (ExposedThing p) (Unit {0})
    set_action_handler name handler s =
        (do act ← item p slugify name s.thing.actions; modify (set_handler p invoke handler act)) s

    unfoldable pub set_property_read_handler : String → Handler → Exec (ExposedThing p) (Unit {0})
    set_property_read_handler name handler s =
        (do
          proprty ← item p slugify name s.thing.properties
          modify (set_handler p retrieve_property handler proprty))
          s

    unfoldable pub set_property_write_handler : String → Handler → Exec (ExposedThing p) (Unit {0})
    set_property_write_handler name handler s =
        (do
          proprty ← item p slugify name s.thing.properties
          modify (set_handler p update_property handler proprty))
          s

    abbrev set_if_given : String → Option Handler → Exec (ExposedThing p) (Unit {0})
    set_if_given name none = pure tt
    set_if_given name (some handler) = set_action_handler name handler

    unfoldable pub add_action :
        ℕ → String → Fragment → List Form → Option Handler → Exec (ExposedThing p) (Unit {0})
    unfolding set_action_handler
    add_action oid name init forms handler s =
        (do
          act ← lift (new_interaction oid s.thing.oid name action init forms)
          add_to_thing act
          announce action name
          set_if_given name handler)
          s

    unfoldable pub add_event : ℕ → String → Fragment → List Form → Exec (ExposedThing p) (Unit {0})
    add_event oid name init forms s =
        (do
          evt ← lift (new_interaction oid s.thing.oid name event init forms)
          add_to_thing evt
          announce event name)
          s

    abbrev remove_as : ChangeType → String → ExposedThing p → ExposedThing p
    remove_as type name s =
        emit_change type removed_method name none
          (record s { thing = remove_interaction slugify name s.thing })

    unfoldable pub remove_property : String → ExposedThing p → ExposedThing p
    remove_property = remove_as property_type

    unfoldable pub remove_action : String → ExposedThing p → ExposedThing p
    remove_action = remove_as action_type

    unfoldable pub remove_event : String → ExposedThing p → ExposedThing p
    remove_event = remove_as event_type
