-- ===== src/Mqtt/Consistency.antt =====
-- A broker's client exists as long as some operation refers to it, and nothing of a broker outlives its client.
use wotpy.Prelude.{
  ℕ, String, ◌≡◌, ◌∙◌, refl, sym, ap, Bool, Bool-cases, inl, inr, true, false, Option, none, some,
  List, [], ◌∷◌, ◌++◌, ◌==◌, string_eq, eq_iff, arith,
}
use wotpy.Outcome.{Outcome, ok, raised}
use wotpy.Dict
use wotpy.Dict.{Dict}
use wotpy.Dict.Laws.{contains-set, contains-pop}
use wotpy.Json.{Json}
use wotpy.Sets.{mem}
use wotpy.Refs.{decrease, has_any}
use wotpy.Refs.Counting.{has_any-decrease, has_any-decrease_other}
use wotpy.Mqtt.Ops.{
  Op, op_init, op_disconnect, op_subscribe, op_message, op_deliver_ends, run_op, run_ops,
  IsConsistent,
}
use wotpy.Mqtt.Client.{
  MqttClient, new_client, new_message, stop_deliver_loop, disconnect_client, clean_messages,
  or_empty, drop_broker, with_topic, append_message, store_message, topic_list, clean_topics,
  Message,
}
use wotpy.Mqtt.Connections.{
  new_client-IsConsistent, stop_deliver_loop-IsConsistent, init_client-IsConsistent,
  subscribe-IsConsistent, deliver_ends-IsConsistent,
}

messages_set :
    (broker_url : String) (d : Dict String (List Message)) (s : MqttClient) (b : String)
    → Dict.contains broker_url s.clients ≡ true
    → IsConsistent s b
    → IsConsistent (record s { messages = Dict.set broker_url d s.messages }) b
messages_set broker_url d s b there c = record {
  client = c.client;
  conditions = c.conditions;
  messages =
      λ h. ground (arith, eq_iff broker_url b, c.messages, contains-set broker_url b d s.messages);
  topics = c.topics;
}

clean_messages-IsConsistent :
    (ttl now : ℕ) (broker_url : String) (s : MqttClient) (b : String)
    → Dict.contains broker_url s.clients ≡ true
    → IsConsistent s b
    → IsConsistent (clean_messages ttl now broker_url s) b
unfolding clean_messages
clean_messages-IsConsistent ttl now broker_url s b there c = go (Dict.get broker_url s.messages)
  where
    go :
        (o : Option (Dict String (List Message)))
        → IsConsistent
            (elim o [
              | none ↦ s
              | some d ↦ record s {
                messages = Dict.set broker_url (clean_topics ttl now d) s.messages;
              }
            ])
            b
    go none = c
    go (some d) = messages_set broker_url (clean_topics ttl now d) s b there c

new_message-IsConsistent :
    (ttl : ℕ) (broker_url topic : String) (data_ : Outcome Json) (id : String) (now later : ℕ)
    (s : MqttClient) (b : String)
    → ((x : String) → IsConsistent s x)
    → IsConsistent (new_message ttl broker_url topic data_ id now later s).1 b
unfolding new_message
new_message-IsConsistent ttl broker_url topic data_ id now later s b c =
    elim (Bool-cases (Dict.contains broker_url s.msg_conditions)) [
      | inr unknown ↦ rw unknown (c b)
      | inl known ↦
          elim (Bool-cases (mem topic (or_empty (Dict.get broker_url s.msg_conditions)))) [
            | inr unknown ↦ rw (known, unknown) (c b)
            | inl listens ↦ rw (known, listens) (go data_ ((c broker_url).conditions known))
          ]
    ]
  where
    prepared : MqttClient
    prepared = with_topic broker_url topic s

    prepared_lem : Dict.contains broker_url s.clients ≡ true → IsConsistent prepared b
    prepared_lem there =
        let d = or_empty (Dict.get broker_url s.messages) in
        messages_set broker_url (Dict.set topic (topic_list topic d) d) s b there (c b)

    go :
        (r : Outcome Json)
        → Dict.contains broker_url s.clients ≡ true
        → IsConsistent (store_message ttl broker_url topic r id now later prepared).1 b
    go (raised e) there = prepared_lem there
    go (ok json) there =
        let msg : Message = record { id = id; data_ = json; time = now } in
        let d = or_empty (Dict.get broker_url prepared.messages) in
        clean_messages-IsConsistent ttl later broker_url
          (append_message broker_url topic msg prepared) b there
          (messages_set broker_url (Dict.set topic (topic_list topic d ++ msg ∷ []) d) prepared b
            there (prepared_lem there))

stop_deliver_loop_refs :
    (broker_url : String) (ended : Bool) (s : MqttClient)
    → (stop_deliver_loop broker_url ended s).1.ref_counter ≡ s.ref_counter
unfolding stop_deliver_loop
stop_deliver_loop_refs broker_url ended s = ground arith

drop_broker-IsConsistent :
    (broker_url : String) (s : MqttClient) (b : String)
    → has_any broker_url s.ref_counter ≡ false
    → ((broker_url == b) ≡ false → IsConsistent s b)
    → IsConsistent (drop_broker broker_url s) b
drop_broker-IsConsistent broker_url s b unused c =
    let clients = contains-pop broker_url b s.clients in
    elim (Bool-cases (broker_url == b)) [
      | inl same ↦
          let e = (eq_iff broker_url b).0 same in
          record {
            client = clients ∙ rw (same, ← e, unused) refl;
            conditions = λ h. ground (arith, contains-pop broker_url b s.msg_conditions);
            messages = λ h. ground (arith, contains-pop broker_url b s.messages);
            topics = λ h. ground (arith, contains-pop broker_url b s.topics);
          }
      | inr other ↦
          let old = c other in
          record {
            client = ground (arith, clients, old.client);
            conditions = λ h.
                ground (arith, clients, old.conditions, contains-pop broker_url b s.msg_conditions);
            messages =
                λ h. ground (arith, clients, old.messages, contains-pop broker_url b s.messages);
            topics = λ h. ground (arith, clients, old.topics, contains-pop broker_url b s.topics);
          }
    ]

disconnect_client-IsConsistent :
    (broker_url ref_id : String) (ended : Bool) (s : MqttClient) (b : String)
    → IsConsistent s b
    → IsConsistent (disconnect_client broker_url ref_id ended s) b
unfolding disconnect_client
disconnect_client-IsConsistent broker_url ref_id ended s b c =
    elim (Bool-cases (has_any broker_url released.ref_counter)) [
      | inl used ↦ rw used (elim (Bool-cases (broker_url == b)) [
        | inl same ↦ released_lem (
            ground
              (arith, eq_iff broker_url b, used, has_any-decrease broker_url ref_id s.ref_counter))
        | inr other ↦ released_lem (has_any-decrease_other broker_url ref_id b s.ref_counter other)
      ])
      | inr unused ↦ rw unused (
          drop_broker-IsConsistent broker_url (stop_deliver_loop broker_url ended released).1 b
            (ap (has_any broker_url) (stop_deliver_loop_refs broker_url ended released) ∙ unused)
            (λ other.
              stop_deliver_loop-IsConsistent broker_url ended released b
                (released_lem (has_any-decrease_other broker_url ref_id b s.ref_counter other))))
    ]
  where
    released : MqttClient
    released = record s { ref_counter = decrease broker_url ref_id s.ref_counter }

    released_lem :
        has_any b (decrease broker_url ref_id s.ref_counter) ≡ has_any b s.ref_counter
        → IsConsistent released b
    released_lem e = record {
      client = c.client ∙ sym e;
      conditions = c.conditions;
      messages = c.messages;
      topics = c.topics;
    }

run_op-IsConsistent :
    (o : Op) (s : MqttClient)
    → ((b : String) → IsConsistent s b)
    → (b : String) → IsConsistent (run_op o s) b
unfolding run_op
run_op-IsConsistent (op_init broker_url ref_id connected) s c b =
    init_client-IsConsistent broker_url ref_id connected s b (c b)
run_op-IsConsistent (op_disconnect broker_url ref_id ended) s c b =
    disconnect_client-IsConsistent broker_url ref_id ended s b (c b)
run_op-IsConsistent (op_subscribe broker_url topic qos subscribed) s c b =
    subscribe-IsConsistent broker_url topic qos subscribed s b (c b)
run_op-IsConsistent (op_message ttl broker_url topic data_ id now later) s c b =
    new_message-IsConsistent ttl broker_url topic data_ id now later s b c
run_op-IsConsistent (op_deliver_ends broker_url) s c b =
    deliver_ends-IsConsistent broker_url s b (c b)

run_from :
    (os : List Op) (s : MqttClient)
    → ((b : String) → IsConsistent s b)
    → (b : String) → IsConsistent (run_ops os s) b
unfolding run_ops
run_from [] s c b = c b
run_from (o ∷ os) s c b = run_from os (run_op o s) (run_op-IsConsistent o s c) b

-- After any sequence of operations of a new client, with any answers of the library, of the broker and
-- of the clock: there is a connection to a broker exactly when some operation holds a
-- reference to it, and the conditions, messages and topics of a broker are there only with its
-- connection.
pub run_ops-IsConsistent : (os : List Op) (b : String) → IsConsistent (run_ops os new_client) b
run_ops-IsConsistent os b = run_from os new_client new_client-IsConsistent b
