-- ===== src/Exposed/Objects.antt =====
-- The objects that wot/exposed/interaction_map.py builds for one interaction of an ExposedThing. Each
-- is built from the name that was looked up, normalized.
use wotpy.Prelude.{String}
use wotpy.Outcome.{Exec, key_error, lift, from_option, gets, ◌>>=◌}
use wotpy.Dict.{Dict}
use wotpy.Thing.{Interaction}
use wotpy.Exposed.Defs.{
  Platform, ExposedThing, find_normalized_name, read_property, write_property, invoke_action,
}
use wotpy.Exposed.Changes.{Observable, on_event, on_property_change, emit_event}

module _ (p : Platform) (slugify : String → String) where
  open p use {Value}

  -- `d[name]` of an `ExposedThingInteractionDict`
  unfoldable pub normalized : String → Dict String Interaction → Exec (ExposedThing p) String
  normalized name d = from_option (key_error name) (find_normalized_name p slugify name d)

  -- `exposed_thing.properties[name].read()`
  unfoldable pub property_read : String → Exec (ExposedThing p) Value
  unfolding normalized
  property_read name s =
      (do key ← normalized name s.thing.properties; read_property p slugify key) s

  unfoldable pub property_write : String → Value → Exec (ExposedThing p) (Unit {0})
  unfolding normalized
  property_write name value s =
      (do key ← normalized name s.thing.properties; write_property p slugify key value) s

  -- `exposed_thing.properties[name].subscribe(...)`: what is subscribed to
  unfoldable pub property_subscribe : String → Exec (ExposedThing p) (Observable p)
  unfolding normalized
  property_subscribe name s =
      (do key ← normalized name s.thing.properties; lift (on_property_change p slugify key s)) s

  unfoldable pub action_invoke : String → Value → Exec (ExposedThing p) Value
  unfolding normalized
  action_invoke name input_value s =
      (do key ← normalized name s.thing.actions; invoke_action p slugify key input_value) s

  unfoldable pub event_subscribe : String → Exec (ExposedThing p) (Observable p)
  unfolding normalized
  event_subscribe name s = (do key ← normalized name s.thing.events; gets (on_event p key)) s

  unfoldable pub event_emit : String → Value → Exec (ExposedThing p) (Unit {0})
  unfolding normalized
  event_emit name payload s =
      (do key ← normalized name s.thing.events; emit_event p slugify key payload) s
