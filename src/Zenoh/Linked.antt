-- ===== src/Zenoh/Linked.antt =====
-- Nothing of a router outlives its session, and it has subscriptions exactly while it has conditions.
use wotpy.Prelude.{
  ℕ, String, ◌≡◌, refl, Bool-cases, inl, inr, true, List, [], ◌∷◌, string_eq, eq_iff, arith,
}
use wotpy.Outcome.{Outcome, ok, raised}
use wotpy.Dict
use wotpy.Dict.{Dict}
use wotpy.Dict.Laws.{contains-set}
use wotpy.Json.{Json}
use wotpy.Sets.{set_add}
use wotpy.Mqtt.Client.{MqttClient, or_empty, subscribe, add_pair}
use wotpy.Zenoh.Client.{
  ZenohClient, new_zenoh_client, open_session, zenoh_init_client, declare, zenoh_subscribe,
  zenoh_deliver, zenoh_disconnect_client,
}

-- For each router.
pub record IsLinked (z : ZenohClient) (r : String) : Type 0 where
  pub conditions :
      Dict.contains r z.tables.msg_conditions ≡ true → Dict.contains r z.tables.clients ≡ true
  pub messages : Dict.contains r z.tables.messages ≡ true → Dict.contains r z.tables.clients ≡ true
  pub topics : Dict.contains r z.tables.topics ≡ true → Dict.contains r z.tables.clients ≡ true
  pub subscribed : Dict.contains r z.subscribers ≡ Dict.contains r z.tables.msg_conditions

pub data ZenohOp : Type 0 where
  op_open : (router_url : String) (opened : Outcome (Unit {0})) → ZenohOp
  op_subscribe : (router_url topic : String) (declared : Outcome (Unit {0})) → ZenohOp
  op_deliver :
      (ttl : ℕ) (router_url topic : String) (data_ : Outcome Json) (id : String) (now later : ℕ)
      → ZenohOp
  op_disconnect : (router_url topic : String) → ZenohOp

unfoldable pub run_op : ZenohOp → ZenohClient → ZenohClient
unfolding zenoh_init_client zenoh_subscribe zenoh_deliver zenoh_disconnect_client
run_op (op_open router_url opened) z = (zenoh_init_client router_url opened z).1
run_op (op_subscribe router_url topic declared) z = (zenoh_subscribe router_url topic declared z).1
run_op (op_deliver ttl router_url topic data_ id now later) z =
    (zenoh_deliver ttl router_url topic data_ id now later z).1
run_op (op_disconnect router_url topic) z = (zenoh_disconnect_client router_url topic z).1

unfoldable pub run_ops : List ZenohOp → ZenohClient → ZenohClient
unfolding run_op
run_ops [] z = z
run_ops (o ∷ os) z = run_ops os (run_op o z)

pub new-IsLinked : (r : String) → IsLinked new_zenoh_client r
unfolding Dict.contains
new-IsLinked r = record {
  conditions = λ h. h;
  messages = λ h. h;
  topics = λ h. h;
  subscribed = refl;
}

pub init-IsLinked :
    (router_url : String) (opened : Outcome (Unit {0})) (z : ZenohClient) (r : String)
    → IsLinked z r
    → IsLinked (zenoh_init_client router_url opened z).1 r
unfolding zenoh_init_client
init-IsLinked router_url opened z r k =
    elim (Bool-cases (Dict.contains router_url z.tables.clients)) [
      | inl there ↦ rw there k
      | inr fresh ↦ rw fresh (go opened)
    ]
  where
    go :
        (o : Outcome (Unit {0}))
        → IsLinked
            (elim o as (λ q. Outcome (Unit {0}) × ZenohClient) [
              | raised e ↦ (raised e, z)
              | ok u ↦ (ok tt, open_session router_url z)
            ]).1
            r
    go (raised e) = k
    go (ok u) =
        let there = contains-set router_url r tt z.tables.clients in
        record {
          conditions = λ h. ground (arith, there, k.conditions);
          messages = λ h. ground (arith, there, k.messages);
          topics = λ h. ground (arith, there, k.topics);
          subscribed = k.subscribed;
        }

pub subscribe-IsLinked :
    (router_url topic : String) (declared : Outcome (Unit {0})) (z : ZenohClient) (r : String)
    → IsLinked z r
    → IsLinked (zenoh_subscribe router_url topic declared z).1 r
unfolding zenoh_subscribe subscribe
subscribe-IsLinked router_url topic declared z r k =
    elim (Bool-cases (Dict.contains router_url z.tables.clients)) [
      | inr absent ↦ rw absent k
      | inl there ↦ rw there (go declared there)
    ]
  where
    subscribed : MqttClient
    subscribed = record z.tables {
      msg_conditions =
          Dict.set router_url
            (set_add topic (or_empty (Dict.get router_url z.tables.msg_conditions)))
            z.tables.msg_conditions;
      topics =
          Dict.set router_url (add_pair topic 0 (or_empty (Dict.get router_url z.tables.topics)))
            z.tables.topics;
    }

    with_subscribers :
        (ts : List String)
        → Dict.contains router_url z.tables.clients ≡ true
        → IsLinked
            (record { tables = subscribed; subscribers = Dict.set router_url ts z.subscribers })
            r
    with_subscribers ts there =
        let conditions =
          contains-set router_url r
            (set_add topic (or_empty (Dict.get router_url z.tables.msg_conditions)))
            z.tables.msg_conditions in
        let topics =
          contains-set router_url r
            (add_pair topic 0 (or_empty (Dict.get router_url z.tables.topics))) z.tables.topics in
        record {
          conditions = λ h. ground (arith, eq_iff router_url r, conditions, k.conditions);
          messages = k.messages;
          topics = λ h. ground (arith, eq_iff router_url r, topics, k.topics);
          subscribed =
              ground (arith, conditions, k.subscribed, contains-set router_url r ts z.subscribers);
        }

    go :
        (d : Outcome (Unit {0}))
        → Dict.contains router_url z.tables.clients ≡ true
        → IsLinked (declare router_url topic d (record z { tables = subscribed })).1 r
    go (raised e) there = with_subscribers (or_empty (Dict.get router_url z.subscribers)) there
    go (ok u) there =
        with_subscribers (set_add topic (or_empty (Dict.get router_url z.subscribers))) there
