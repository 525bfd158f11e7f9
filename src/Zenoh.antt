-- ===== src/Zenoh.antt =====
-- wotpy/protocols/zenoh: the server, and the handlers as instances of the broker's.
pub mod Client
pub mod Linked
pub mod Runs
pub mod Calls
pub mod Shared
unfoldable pub use Client.*
use wotpy.Prelude.{
  ℕ, String, none, List, ◌++◌, string_eq, text_eq, Text, codes, starts_with, rstrip, if◌then◌else◌,
}
use wotpy.Thing.{Interaction, property, action, event}
use wotpy.Exposed.{Platform, EmittedEvent}
use wotpy.Broker.{
  Wire, Binding, Incoming, Handler, Handling, handle_ping, handle_property, handle_action,
  on_next_property, on_next_event,
}
use wotpy.Mqtt.{BrokerForm, broker_forms_property, broker_forms_action, broker_forms_event}

-- `router_url` as `__init__` keeps it
unfoldable pub router_url : Text → Text
router_url url = if starts_with (codes "tcp/") url then url else codes "tcp/" ++ url

abbrev base_of : Text → Text
base_of url = codes "zenoh://" ++ rstrip b'/' url

-- Zenoh has no levels of quality.
unfoldable pub zenoh_binding : Text → Binding
zenoh_binding sid = record {
  servient_id = sid;
  wildcard = codes "**";
  qos_observe = none;
  qos_rw = none;
}

-- `url` is what `router_url` gives.
module _ (slugify : String → String) (url : Text) (sid : Text) (thing : Text) where
  unfoldable pub zenoh_forms_property : Interaction → List BrokerForm
  zenoh_forms_property i =
      broker_forms_property "ZENOH" (base_of url) sid thing (codes (slugify i.name)) i

  unfoldable pub zenoh_forms_action : Interaction → List BrokerForm
  zenoh_forms_action i =
      broker_forms_action "ZENOH" (base_of url) sid thing (codes (slugify i.name)) i

  unfoldable pub zenoh_forms_event : Interaction → List BrokerForm
  zenoh_forms_event i =
      broker_forms_event "ZENOH" (base_of url) sid thing (codes (slugify i.name)) i

  -- `build_forms`
  unfoldable pub zenoh_build_forms : Interaction → List BrokerForm
  unfolding zenoh_forms_property zenoh_forms_action zenoh_forms_event
  zenoh_build_forms i = elim i.kind [
    | property ↦ zenoh_forms_property i
    | action ↦ zenoh_forms_action i
    | event ↦ zenoh_forms_event i
  ]

-- The handlers of a servient.
module _ (p : Platform) (w : Wire p) (sid : Text) where
  unfoldable pub zenoh_handle_ping : Incoming p w → Handler p w → Handler p w
  unfolding handle_ping
  zenoh_handle_ping = handle_ping p w sid none

  unfoldable pub zenoh_handle_property : ℕ → Incoming p w → Handling p w (Unit {0})
  unfolding handle_property zenoh_binding
  zenoh_handle_property = handle_property p w (zenoh_binding sid)

  unfoldable pub zenoh_handle_action : ℕ → Incoming p w → Handling p w (Unit {0})
  unfolding handle_action zenoh_binding
  zenoh_handle_action = handle_action p w (zenoh_binding sid)

  unfoldable pub zenoh_on_next_property :
      ℕ → Text → Text → EmittedEvent p.Value → Handling p w (Unit {0})
  unfolding on_next_property zenoh_binding
  zenoh_on_next_property = on_next_property p w (zenoh_binding sid)

  unfoldable pub zenoh_on_next_event :
      ℕ → Text → Text → EmittedEvent p.Value → Handling p w (Unit {0})
  unfolding on_next_event zenoh_binding
  zenoh_on_next_event = on_next_event p w (zenoh_binding sid)
