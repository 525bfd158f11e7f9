-- ===== src/Zenoh/Runs.antt =====
-- Messages and disconnections keep the tables of a router linked, and so does any sequence of operations.
use wotpy.Prelude.{
  ℕ, String, ◌≡◌, refl, Bool-cases, inl, inr, true, Option, none, some, List, [], ◌∷◌, ◌++◌,
  string_eq, eq_iff, arith,
}
use wotpy.Outcome.{Outcome, ok, raised}
use wotpy.Dict
use wotpy.Dict.{Dict}
use wotpy.Dict.Laws.{contains-set, contains-pop, contains-get}
use wotpy.Json.{Json}
use wotpy.Sets.{mem, set_remove}
use wotpy.Mqtt.Client.{
  MqttClient, Message, or_empty, new_message, store_message, with_topic, append_message,
  clean_messages, clean_topics, topic_list,
}
use wotpy.Zenoh.Client.{
  ZenohClient, new_zenoh_client, zenoh_deliver, drop_router, drop_unused, disconnect_found,
  zenoh_disconnect_client,
}
use wotpy.Zenoh.Linked.{
  IsLinked, ZenohOp, op_open, op_subscribe, op_deliver, op_disconnect, run_op, run_ops,
  new-IsLinked, init-IsLinked, subscribe-IsLinked,
}

with_tables : MqttClient → ZenohClient → ZenohClient
with_tables s z = record z { tables = s }

-- A step that changes the messages of a router with a session only.
messages_set :
    (router_url : String) (d : Dict String (List Message)) (s : MqttClient) (z : ZenohClient)
    (r : String)
    → Dict.contains router_url s.clients ≡ true
    → IsLinked (with_tables s z) r
    → IsLinked (with_tables (record s { messages = Dict.set router_url d s.messages }) z) r
unfolding with_tables
messages_set router_url d s z r there k = record {
  conditions = k.conditions;
  messages =
      λ h. ground (arith, eq_iff router_url r, k.messages, contains-set router_url r d s.messages);
  topics = k.topics;
  subscribed = k.subscribed;
}

clean-IsLinked :
    (ttl now : ℕ) (router_url : String) (s : MqttClient) (z : ZenohClient) (r : String)
    → Dict.contains router_url s.clients ≡ true
    → IsLinked (with_tables s z) r
    → IsLinked (with_tables (clean_messages ttl now router_url s) z) r
unfolding clean_messages with_tables
clean-IsLinked ttl now router_url s z r there k = go (Dict.get router_url s.messages)
  where
    go :
        (o : Option (Dict String (List Message)))
        → IsLinked
            (with_tables
              (elim o [
                | none ↦ s
                | some d ↦ record s {
                  messages = Dict.set router_url (clean_topics ttl now d) s.messages;
                }
              ])
              z)
            r
    go none = k
    go (some d) = messages_set router_url (clean_topics ttl now d) s z r there k

store-IsLinked :
    (ttl : ℕ) (router_url topic : String) (data_ : Outcome Json) (id : String) (now later : ℕ)
    (s : MqttClient) (z : ZenohClient) (r : String)
    → Dict.contains router_url s.clients ≡ true
    → IsLinked (with_tables s z) r
    → IsLinked (with_tables (store_message ttl router_url topic data_ id now later s).1 z) r
unfolding with_tables
store-IsLinked ttl router_url topic (raised e) id now later s z r there k = k
store-IsLinked ttl router_url topic (ok json) id now later s z r there k =
    let msg : Message = record { id = id; data_ = json; time = now } in
    let d = or_empty (Dict.get router_url s.messages) in
    clean-IsLinked ttl later router_url (append_message router_url topic msg s) z r there
      (messages_set router_url (Dict.set topic (topic_list topic d ++ msg ∷ []) d) s z r there k)

deliver-IsLinked :
    (ttl : ℕ) (router_url topic : String) (data_ : Outcome Json) (id : String) (now later : ℕ)
    (z : ZenohClient) (r : String)
    → IsLinked z r
    → IsLinked (zenoh_deliver ttl router_url topic data_ id now later z).1 r
unfolding zenoh_deliver new_message with_tables
deliver-IsLinked ttl router_url topic data_ id now later z r k =
    elim (Bool-cases (Dict.contains router_url z.tables.clients)) [
      | inr absent ↦ rw absent k
      | inl there ↦ rw there (elim (Bool-cases (Dict.contains router_url z.tables.msg_conditions)) [
        | inr unknown ↦ rw unknown k
        | inl known ↦
            elim (Bool-cases (mem topic (or_empty (Dict.get router_url z.tables.msg_conditions)))) [
              | inr unknown ↦ rw (known, unknown) k
              | inl listens ↦
                  rw (known, listens)
                    (let d = or_empty (Dict.get router_url z.tables.messages) in
                      store-IsLinked ttl router_url topic data_ id now later
                        (with_topic router_url topic z.tables) z r there
                        (messages_set router_url (Dict.set topic (topic_list topic d) d) z.tables z
                          r there k))
            ]
      ])
    ]

drop_router-IsLinked :
    (router_url : String) (z : ZenohClient) (r : String)
    → IsLinked z r
    → IsLinked (drop_router router_url z) r
drop_router-IsLinked router_url z r k =
    let clients = contains-pop router_url r z.tables.clients in
    let conditions = contains-pop router_url r z.tables.msg_conditions in
    record {
      conditions = λ h. ground (arith, clients, conditions, k.conditions);
      messages =
          λ h. ground (arith, clients, k.messages, contains-pop router_url r z.tables.messages);
      topics = λ h. ground (arith, clients, k.topics, contains-pop router_url r z.tables.topics);
      subscribed =
          ground (arith, conditions, k.subscribed, contains-pop router_url r z.subscribers);
    }

disconnect-IsLinked :
    (router_url topic : String) (z : ZenohClient) (r : String)
    → IsLinked z r
    → IsLinked (zenoh_disconnect_client router_url topic z).1 r
unfolding zenoh_disconnect_client Dict.contains
disconnect-IsLinked router_url topic z r k = go (Dict.get router_url z.subscribers) refl
  where
    remaining :
        (ts : List String)
        → Dict.contains router_url z.subscribers ≡ true
        → IsLinked (drop_unused router_url ts z).1 r
    remaining [] there = drop_router-IsLinked router_url z r k
    remaining (t ∷ ts) there = record {
      conditions = k.conditions;
      messages = k.messages;
      topics = k.topics;
      subscribed = ground (
        arith,
        k.subscribed,
        there,
        eq_iff router_url r,
        contains-set router_url r (t ∷ ts) z.subscribers,
      );
    }

    go :
        (o : Option (List String))
        → Dict.get router_url z.subscribers ≡ o
        → IsLinked (disconnect_found router_url topic o z).1 r
    go none e = k
    go (some ts) e = remaining (set_remove topic ts) (contains-get router_url ts z.subscribers e)

run_op-IsLinked :
    (o : ZenohOp) (z : ZenohClient) (r : String) → IsLinked z r → IsLinked (run_op o z) r
unfolding run_op
run_op-IsLinked (op_open router_url opened) z r k = init-IsLinked router_url opened z r k
run_op-IsLinked (op_subscribe router_url topic declared) z r k =
    subscribe-IsLinked router_url topic declared z r k
run_op-IsLinked (op_deliver ttl router_url topic data_ id now later) z r k =
    deliver-IsLinked ttl router_url topic data_ id now later z r k
run_op-IsLinked (op_disconnect router_url topic) z r k = disconnect-IsLinked router_url topic z r k

run_from :
    (os : List ZenohOp) (z : ZenohClient) (r : String) → IsLinked z r → IsLinked (run_ops os z) r
unfolding run_ops
run_from [] z r k = k
run_from (o ∷ os) z r k = run_from os (run_op o z) r (run_op-IsLinked o z r k)

-- After any sequence of operations of a new Zenoh client, with any answers of the library and any
-- messages: a router has a table of subscribers exactly when it has conditions, and its conditions,
-- its messages and its topics are there only while it has a session.
pub run_ops-IsLinked : (os : List ZenohOp) (r : String) → IsLinked (run_ops os new_zenoh_client) r
run_ops-IsLinked os r = run_from os new_zenoh_client r (new-IsLinked r)
