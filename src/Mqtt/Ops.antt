-- ===== src/Mqtt/Ops.antt =====
-- The operations of the MQTT client in any order, and what holds of its tables.
use wotpy.Prelude.{ℕ, String, ◌≡◌, Bool, true, List, [], ◌∷◌, string_eq}
use wotpy.Outcome.{Outcome}
use wotpy.Dict
use wotpy.Json.{Json}
use wotpy.Refs.{has_any}
use wotpy.Mqtt.Client.{
  MqttClient, new_message, deliver_ends, init_client, disconnect_client, subscribe,
}

-- What the client's operations and its delivery loops do, with what the library answers.
pub data Op : Type 0 where
  op_init : (broker_url ref_id : String) (connected : Outcome (Unit {0})) → Op
  op_disconnect : (broker_url ref_id : String) (ended : Bool) → Op
  op_subscribe : (broker_url topic : String) (qos : ℕ) (subscribed : Outcome (Unit {0})) → Op
  op_message :
      (ttl : ℕ) (broker_url topic : String) (data_ : Outcome Json) (id : String) (now later : ℕ)
      → Op
  op_deliver_ends : (broker_url : String) → Op

unfoldable pub run_op : Op → MqttClient → MqttClient
unfolding init_client disconnect_client subscribe new_message deliver_ends
run_op (op_init broker_url ref_id connected) s = (init_client broker_url ref_id connected s).1
run_op (op_disconnect broker_url ref_id ended) s = disconnect_client broker_url ref_id ended s
run_op (op_subscribe broker_url topic qos subscribed) s =
    (subscribe broker_url topic qos subscribed s).1
run_op (op_message ttl broker_url topic data_ id now later) s =
    (new_message ttl broker_url topic data_ id now later s).1
run_op (op_deliver_ends broker_url) s = deliver_ends broker_url s

unfoldable pub run_ops : List Op → MqttClient → MqttClient
unfolding run_op
run_ops [] s = s
run_ops (o ∷ os) s = run_ops os (run_op o s)

-- For each broker.
pub record IsConsistent (s : MqttClient) (b : String) : Type 0 where
  pub client : Dict.contains b s.clients ≡ has_any b s.ref_counter
  pub conditions : Dict.contains b s.msg_conditions ≡ true → Dict.contains b s.clients ≡ true
  pub messages : Dict.contains b s.messages ≡ true → Dict.contains b s.clients ≡ true
  pub topics : Dict.contains b s.topics ≡ true → Dict.contains b s.clients ≡ true
