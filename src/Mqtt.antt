-- ===== src/Mqtt.antt =====
-- wotpy/protocols/mqtt/server.py, with the instances of the broker's handlers for MQTT.
pub mod Client
pub mod Ops
mod Connections
pub mod Consistency
pub mod Matching
pub mod Stuck
pub mod Timeouts
pub mod Calls
pub mod RoundTrip
unfoldable pub use Client.*
use wotpy.Prelude.{
  ℕ, String, Bool, true, false, ◌&&◌, Option, none, some, List, [], ◌∷◌, ◌++◌, ◌==◌, string_eq,
  text_eq, Text, codes, nat_beq, rstrip, if◌then◌else◌,
}
use wotpy.Outcome.{Outcome}
use wotpy.Thing.{Interaction, InteractionType, property, action, event}
use wotpy.Exposed.{Platform}
use wotpy.Broker.{
  Wire, Binding, Incoming, Handler, handle_ping, property_requests_topic,
  build_property_updates_topic, action_invocation_topic, build_event_topic,
}

-- What a server gives to `Form`: the content type is always JSON.
pub record BrokerForm : Type 0 where
  pub interaction : ℕ
  pub protocol : String
  pub href : Text
  pub op : String

-- No ID, or the empty one, stands for the default.
unfoldable pub servient_id : (String → String) → Option String → Text
servient_id slugify none = codes "wotpy"
servient_id slugify (some id) = if id == "" then codes "wotpy" else codes (slugify id)

-- The levels of quality: QOS_0 to observe, QOS_2 to read, write and invoke.
unfoldable pub mqtt_binding : Text → Binding
mqtt_binding sid = record {
  servient_id = sid;
  wildcard = codes "#";
  qos_observe = some 0;
  qos_rw = some 2;
}

abbrev form_at : String → Text → Text → Interaction → String → BrokerForm
form_at protocol base topic i op = record {
  interaction = i.oid;
  protocol = protocol;
  href = base ++ b'/' ∷ topic;
  op = op;
}

-- The forms for a base, of either binding.
module _ (protocol : String) (base : Text) (sid thing name : Text) (i : Interaction) where
  abbrev pub broker_forms_property : List BrokerForm
  broker_forms_property =
      form_at protocol base (property_requests_topic sid thing name) i "readproperty"
      ∷ form_at protocol base (property_requests_topic sid thing name) i "writeproperty"
      ∷ form_at protocol base (build_property_updates_topic sid thing name) i "observeproperty"
      ∷ []

  abbrev pub broker_forms_action : List BrokerForm
  broker_forms_action =
      form_at protocol base (action_invocation_topic sid thing name) i "invokeaction" ∷ []

  abbrev pub broker_forms_event : List BrokerForm
  broker_forms_event =
      form_at protocol base (build_event_topic sid thing name) i "subscribeevent" ∷ []

module _ (slugify : String → String) (broker_url : Text) (sid : Text) (thing : Text) where
  unfoldable pub mqtt_forms_property : Interaction → List BrokerForm
  mqtt_forms_property i =
      broker_forms_property "MQTT" (rstrip b'/' broker_url) sid thing (codes (slugify i.name)) i

  unfoldable pub mqtt_forms_action : Interaction → List BrokerForm
  mqtt_forms_action i =
      broker_forms_action "MQTT" (rstrip b'/' broker_url) sid thing (codes (slugify i.name)) i

  unfoldable pub mqtt_forms_event : Interaction → List BrokerForm
  mqtt_forms_event i =
      broker_forms_event "MQTT" (rstrip b'/' broker_url) sid thing (codes (slugify i.name)) i

  -- `build_forms`
  unfoldable pub mqtt_build_forms : Interaction → List BrokerForm
  unfolding mqtt_forms_property mqtt_forms_action mqtt_forms_event
  mqtt_build_forms i = elim i.kind [
    | property ↦ mqtt_forms_property i
    | action ↦ mqtt_forms_action i
    | event ↦ mqtt_forms_event i
  ]

module _ (p : Platform) (w : Wire p) where
  -- `PingMQTTHandler.handle_message`, with QOS_1
  unfoldable pub mqtt_handle_ping : Text → Incoming p w → Handler p w → Handler p w
  unfolding handle_ping
  mqtt_handle_ping sid = handle_ping p w sid (some 1)
