-- ===== src/Zenoh/Shared.antt =====
-- Operations of the Zenoh client that share a router.
use wotpy.Prelude.{
  String, ◌≡◌, ◌∙◌, refl, Bool-cases, inl, inr, true, false, none, some, List, [], ◌∷◌, ◌==◌,
  string_eq, eq_iff,
}
use wotpy.Outcome.{Outcome, ok, raised, key_error, assertion_error, Exec, go_on, ◌>>=◌}
use wotpy.Dict
use wotpy.Dict.{Dict}
use wotpy.Dict.Laws.{get-set, contains-set, contains-pop, get-set_same}
use wotpy.Sets.{mem, set_add, mem-set_add}
use wotpy.Mqtt.Client.{MqttClient, or_empty, subscribe}
use wotpy.Zenoh.Client.{
  ZenohClient, open_session, declare, zenoh_init_client, zenoh_subscribe, zenoh_publish,
  zenoh_disconnect_client, zenoh_wait_on_message,
}
use wotpy.Mqtt.Calls.{on_published}
use wotpy.Zenoh.Calls.{zenoh_read_request, zenoh_read_ends, init_other}

-- What a subscription to a topic of a router with a session leaves.
record IsSubscribed (router_url topic : String) (ts : List String) (z : ZenohClient) : Type 0 where
  session : Dict.contains router_url z.tables.clients ≡ true
  subscribers : Dict.get router_url z.subscribers ≡ some ts
  listens : mem topic (or_empty (Dict.get router_url z.tables.msg_conditions)) ≡ true
  conditions : Dict.contains router_url z.tables.msg_conditions ≡ true

zenoh_subscribe-IsSubscribed :
    (router_url topic : String) (z : ZenohClient)
    → Dict.contains router_url z.tables.clients ≡ true
    → IsSubscribed router_url topic
        (set_add topic (or_empty (Dict.get router_url z.subscribers)))
        (zenoh_subscribe router_url topic (ok tt) z).1
unfolding zenoh_subscribe subscribe
zenoh_subscribe-IsSubscribed router_url topic z there =
    let old = or_empty (Dict.get router_url z.tables.msg_conditions) in
    rw there (record {
      session = there;
      subscribers =
          get-set_same router_url (set_add topic (or_empty (Dict.get router_url z.subscribers)))
            z.subscribers;
      listens =
          rw (get-set_same router_url (set_add topic old) z.tables.msg_conditions)
            (mem-set_add topic topic old ∙ rw ((eq_iff topic topic).1 refl) refl);
      conditions =
          contains-set router_url router_url (set_add topic old) z.tables.msg_conditions
          ∙ rw ((eq_iff router_url router_url).1 refl) refl;
    })

-- The last subscriber of a router takes its conditions with it.
last_subscriber :
    (router_url topic : String) (z : ZenohClient)
    → Dict.get router_url z.subscribers ≡ some (topic ∷ [])
    → Dict.contains router_url (zenoh_disconnect_client router_url topic z).1.tables.msg_conditions
      ≡ false
unfolding zenoh_disconnect_client
last_subscriber router_url topic z one =
    rw (one, (eq_iff topic topic).1 refl)
      (contains-pop router_url router_url z.tables.msg_conditions
        ∙ rw ((eq_iff router_url router_url).1 refl) refl)

-- Two operations on the same topic of a router with a session, where no other subscribes to the
-- router: both may wait, and after one of them ends the other's next wait raises. No operation counts
-- its references.
pub zenoh_wait_on_message-zenoh_disconnect_client :
    (router_url topic : String) (z : ZenohClient)
    → Dict.contains router_url z.tables.clients ≡ true
    → Dict.get router_url z.subscribers ≡ none
    → (zenoh_wait_on_message router_url topic
          (zenoh_subscribe router_url topic
            (ok tt)
            (zenoh_subscribe router_url topic (ok tt) z).1).1
        ≡ ok tt)
      × (zenoh_wait_on_message router_url topic
            (zenoh_disconnect_client router_url topic
              (zenoh_subscribe router_url topic
                (ok tt)
                (zenoh_subscribe router_url topic (ok tt) z).1).1).1
          ≡ raised (assertion_error "Unknown router URL"))
unfolding zenoh_wait_on_message
zenoh_wait_on_message-zenoh_disconnect_client router_url topic z there fresh =
    let first = (zenoh_subscribe router_url topic (ok tt) z).1 in
    let second = (zenoh_subscribe router_url topic (ok tt) first).1 in
    let one = zenoh_subscribe-IsSubscribed router_url topic z there in
    let two = zenoh_subscribe-IsSubscribed router_url topic first one.session in
    let both : Dict.get router_url second.subscribers ≡ some (topic ∷ []) =
      two.subscribers ∙ rw (one.subscribers, fresh, (eq_iff topic topic).1 refl) refl in
    (rw (two.conditions, two.listens) refl, rw (last_subscriber router_url topic second both) refl)

-- A router that nothing subscribes to.
abbrev Unused : String → ZenohClient → Type 0
Unused router_url z = Dict.get router_url z.subscribers ≡ none

go_on-Unused :
    {A B : Type 0} (r : String) (o : Outcome A × ZenohClient) (f : A → Exec ZenohClient B)
    → Unused r o.1
    → ((a : A) (z : ZenohClient) → Unused r z → Unused r (f a z).1)
    → Unused r (go_on o.0 f o.1).1
go_on-Unused r (ok a, z) f u h = h a z u
go_on-Unused r (raised e, z) f u h = u

init-Unused :
    (r router_url : String) (opened : Outcome (Unit {0})) (z : ZenohClient)
    → Unused r z
    → Unused r (zenoh_init_client router_url opened z).1
unfolding zenoh_init_client
init-Unused r router_url opened z u =
    elim (Bool-cases (Dict.contains router_url z.tables.clients)) [
      | inl there ↦ rw there u
      | inr fresh ↦ rw fresh (go opened)
    ]
  where
    go :
        (o : Outcome (Unit {0}))
        → Unused r
            (elim o as (λ q. Outcome (Unit {0}) × ZenohClient) [
              | raised e ↦ (raised e, z)
              | ok x ↦ (ok tt, open_session router_url z)
            ]).1
    go (raised e) = u
    go (ok x) = u

init_other-Unused :
    (r router_obsv : String) (opened : Outcome (Unit {0})) (z : ZenohClient)
    → Unused r z
    → Unused r (init_other r router_obsv opened z).1
unfolding init_other
init_other-Unused r router_obsv opened z u = elim (Bool-cases (router_obsv == r)) [
  | inl same ↦ rw same u
  | inr other ↦ rw other (init-Unused r router_obsv opened z u)
]

subscribe-Unused :
    (r router_url topic : String) (declared : Outcome (Unit {0})) (z : ZenohClient)
    → (router_url == r) ≡ false
    → Unused r z
    → Unused r (zenoh_subscribe router_url topic declared z).1
unfolding zenoh_subscribe
subscribe-Unused r router_url topic declared z other u =
    elim (Bool-cases (Dict.contains router_url z.tables.clients)) [
      | inr absent ↦ rw absent u
      | inl there ↦ rw there (go _ declared)
    ]
  where
    set_other : (ts : List String) → Dict.get r (Dict.set router_url ts z.subscribers) ≡ none
    set_other ts = get-set router_url r ts z.subscribers ∙ rw other u

    go :
        (s : MqttClient) (d : Outcome (Unit {0}))
        → Unused r (declare router_url topic d (record z { tables = s })).1
    go s (raised e) = set_other (or_empty (Dict.get router_url z.subscribers))
    go s (ok x) = set_other (set_add topic (or_empty (Dict.get router_url z.subscribers)))

-- A read whose two forms name different routers, where nothing subscribes to the router that it reads
-- from, ends in a KeyError whatever its request and its loop gave, and disconnects neither router.
pub zenoh_read_ends-zenoh_read_request :
    {A : Type 0} (router_read topic_read router_obsv topic_obsv : String) (payload : A)
    (opened opened_other declared published : Outcome (Unit {0})) (z : ZenohClient)
    → (router_obsv == router_read) ≡ false
    → Dict.get router_read z.subscribers ≡ none
    → let z' =
        (zenoh_read_request router_read router_obsv topic_obsv payload opened opened_other declared
          published z).1 in
      zenoh_read_ends router_read topic_read router_obsv topic_obsv z'
      ≡ (raised (key_error router_read), z')
unfolding zenoh_read_request zenoh_read_ends zenoh_disconnect_client
zenoh_read_ends-zenoh_read_request {A} router_read topic_read router_obsv topic_obsv payload opened
      opened_other declared published z other unused =
    rw kept refl
  where
    kept :
        Unused router_read
          (zenoh_read_request router_read router_obsv topic_obsv payload opened opened_other
            declared published z).1
    kept =
        go_on-Unused router_read (zenoh_init_client router_read opened z)
          (λ u. init_other router_read router_obsv opened_other >>= λ v.
            zenoh_subscribe router_obsv topic_obsv declared >>= λ w.
            λ x. (on_published (zenoh_publish router_read payload x) published, x))
          (init-Unused router_read router_read opened z unused)
          (λ u a h.
            go_on-Unused router_read (init_other router_read router_obsv opened_other a)
              (λ v. zenoh_subscribe router_obsv topic_obsv declared >>= λ w.
                λ x. (on_published (zenoh_publish router_read payload x) published, x))
              (init_other-Unused router_read router_obsv opened_other a h)
              (λ v b h'.
                go_on-Unused router_read (zenoh_subscribe router_obsv topic_obsv declared b)
                  (λ w x. (on_published (zenoh_publish router_read payload x) published, x))
                  (subscribe-Unused router_read router_obsv topic_obsv declared b other h')
                  (λ w c h''. h'')))
