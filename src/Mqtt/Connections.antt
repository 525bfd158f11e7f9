-- ===== src/Mqtt/Connections.antt =====
-- Connecting and subscribing keep the tables of the MQTT client consistent.
use wotpy.Prelude.{
  ℕ, String, refl, Bool, Bool-cases, inl, inr, true, false, string_eq, eq_iff, arith,
}
use wotpy.Outcome.{Outcome, ok, raised}
use wotpy.Dict
use wotpy.Dict.{Dict}
use wotpy.Dict.Laws.{contains-set}
use wotpy.Sets.{set_add}
use wotpy.Refs.{increase, has_any}
use wotpy.Refs.Counting.{has_any-increase}
use wotpy.Mqtt.Ops.{IsConsistent}
use wotpy.Mqtt.Client.{
  MqttClient, new_client, start_deliver_loop, stop_deliver_loop, deliver_ends, init_client,
  subscribe, or_empty, add_pair, is_set, stop_loop, connect_new,
}

pub new_client-IsConsistent : (b : String) → IsConsistent new_client b
unfolding has_any Dict.get Dict.contains
new_client-IsConsistent b = record {
  client = refl;
  conditions = λ h. h;
  messages = λ h. h;
  topics = λ h. h;
}

with_events :
    (s : MqttClient) (b : String) (events : Dict String Bool)
    → IsConsistent s b
    → IsConsistent (record s { deliver_stop_events = events }) b
with_events s b events c = record {
  client = c.client;
  conditions = c.conditions;
  messages = c.messages;
  topics = c.topics;
}

start_deliver_loop-IsConsistent :
    (broker_url : String) (s : MqttClient) (b : String)
    → IsConsistent s b
    → IsConsistent (start_deliver_loop broker_url s).1 b
unfolding start_deliver_loop
start_deliver_loop-IsConsistent broker_url s b c =
    elim (Bool-cases (Dict.contains broker_url s.deliver_stop_events)) [
      | inl old ↦ rw old c
      | inr fresh ↦ rw fresh (with_events s b (Dict.set broker_url false s.deliver_stop_events) c)
    ]

pub stop_deliver_loop-IsConsistent :
    (broker_url : String) (ended : Bool) (s : MqttClient) (b : String)
    → IsConsistent s b
    → IsConsistent (stop_deliver_loop broker_url ended s).1 b
unfolding stop_deliver_loop
stop_deliver_loop-IsConsistent broker_url ended s b c =
    elim (Bool-cases (Dict.contains broker_url s.deliver_stop_events)) [
      | inl old ↦ elim (Bool-cases (is_set (Dict.get broker_url s.deliver_stop_events))) [
        | inl h_set ↦ rw (old, h_set) c
        | inr h_clear ↦ rw (old, h_clear) (go ended)
      ]
      | inr fresh ↦ rw fresh c
    ]
  where
    go : (e : Bool) → IsConsistent (stop_loop broker_url e s).1 b
    go true =
        with_events s b (Dict.pop broker_url (Dict.set broker_url true s.deliver_stop_events)) c
    go false = with_events s b (Dict.set broker_url true s.deliver_stop_events) c

opened-IsConsistent :
    (broker_url ref_id : String) (s : MqttClient) (b : String)
    → IsConsistent s b
    → IsConsistent
        (record s {
          clients = Dict.set broker_url tt s.clients;
          ref_counter = increase broker_url ref_id s.ref_counter;
        })
        b
opened-IsConsistent broker_url ref_id s b c =
    let there = contains-set broker_url b tt s.clients in
    let held = has_any-increase broker_url ref_id b s.ref_counter in
    record {
      client = ground (arith, there, held, c.client);
      conditions = λ h. ground (arith, there, c.conditions);
      messages = λ h. ground (arith, there, c.messages);
      topics = λ h. ground (arith, there, c.topics);
    }

pub init_client-IsConsistent :
    (broker_url ref_id : String) (connected : Outcome (Unit {0})) (s : MqttClient) (b : String)
    → IsConsistent s b
    → IsConsistent (init_client broker_url ref_id connected s).1 b
unfolding init_client start_deliver_loop
init_client-IsConsistent broker_url ref_id connected s b c =
    elim (Bool-cases (Dict.contains broker_url s.clients)) [
      | inl there ↦ rw there (record {
        client = ground (
          arith,
          eq_iff broker_url b,
          has_any-increase broker_url ref_id b s.ref_counter,
          c.client,
        );
        conditions = c.conditions;
        messages = c.messages;
        topics = c.topics;
      })
      | inr fresh ↦ rw fresh (go connected)
    ]
  where
    go :
        (r : Outcome (Unit {0}))
        → IsConsistent
            (connect_new broker_url r
              (record s { ref_counter = increase broker_url ref_id s.ref_counter })).1
            b
    go (raised e) = opened-IsConsistent broker_url ref_id s b c
    go (ok u) =
        start_deliver_loop-IsConsistent broker_url
          (record s {
            clients = Dict.set broker_url tt s.clients;
            ref_counter = increase broker_url ref_id s.ref_counter;
          })
          b (opened-IsConsistent broker_url ref_id s b c)

pub subscribe-IsConsistent :
    (broker_url topic : String) (qos : ℕ) (subscribed : Outcome (Unit {0})) (s : MqttClient)
    (b : String)
    → IsConsistent s b
    → IsConsistent (subscribe broker_url topic qos subscribed s).1 b
unfolding subscribe
subscribe-IsConsistent broker_url topic qos subscribed s b c =
    elim (Bool-cases (Dict.contains broker_url s.clients)) [
      | inr absent ↦ rw absent c
      | inl there ↦ rw there (record {
        client = c.client;
        conditions = λ h. ground (
          arith,
          eq_iff broker_url b,
          c.conditions,
          contains-set broker_url b
              (set_add topic (or_empty (Dict.get broker_url s.msg_conditions))) s.msg_conditions,
        );
        messages = c.messages;
        topics = λ h. ground (
          arith,
          eq_iff broker_url b,
          c.topics,
          contains-set broker_url b (add_pair topic qos (or_empty (Dict.get broker_url s.topics)))
              s.topics,
        );
      })
    ]

pub deliver_ends-IsConsistent :
    (broker_url : String) (s : MqttClient) (b : String)
    → IsConsistent s b
    → IsConsistent (deliver_ends broker_url s) b
unfolding deliver_ends
deliver_ends-IsConsistent broker_url s b c =
    elim (Bool-cases (Dict.contains broker_url s.deliver_stop_events)) [
      | inl there ↦ rw there (with_events s b (Dict.set broker_url false s.deliver_stop_events) c)
      | inr absent ↦ rw absent c
    ]
