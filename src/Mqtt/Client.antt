-- ===== src/Mqtt/Client.antt =====
-- wotpy/protocols/mqtt/client.py: the connections of the MQTT client that its operations share, and the
-- messages that wait for them. What the MQTT library answers is an argument. A coroutine that holds the
-- lock runs to its end in one step. Times are in milliseconds.
use wotpy.Prelude.{
  ℕ, String, Bool, true, false, not, ◌&&◌, Option, none, some, List, [], ◌∷◌, ◌++◌, ◌+◌, ◌==◌,
  nat_eq, string_eq, ltb, leb, any, keep, if◌then◌else◌,
}
use wotpy.Outcome.{
  raised, assertion_error, Outcome, ok, Exec, pure, throw, lift, modify, ◌>>=◌, ◌>>◌,
}
use wotpy.Dict
use wotpy.Dict.{Dict}
use wotpy.Json.{Json}
use wotpy.Refs.{ConnRefCounter, increase, decrease, has_any}
use wotpy.Sets.{mem, set_add}

pub record Message : Type 0 where
  pub id : String
  pub data_ : Json
  pub time : ℕ

-- Each table is by broker. The library's clients and conditions keep no state here: `clients` and
-- `msg_conditions` say for which brokers and topics there is one. A stop event is set or not.
pub record MqttClient : Type 0 where
  pub deliver_stop_events : Dict String Bool
  pub msg_conditions : Dict String (List String)
  pub clients : Dict String (Unit {0})
  pub messages : Dict String (Dict String (List Message))
  pub topics : Dict String (List (String × ℕ))
  pub ref_counter : ConnRefCounter

abbrev pub new_client : MqttClient
new_client = record {
  deliver_stop_events = [];
  msg_conditions = [];
  clients = [];
  messages = [];
  topics = [];
  ref_counter = [];
}

abbrev pub check : Bool → String → Exec MqttClient (Unit {0})
check true message = pure tt
check false message = throw (assertion_error message)

abbrev pub or_empty {ℓ} : {A : Type ℓ} → Option (List A) → List A
or_empty none = []
or_empty (some xs) = xs

abbrev pub topic_list : String → Dict String (List Message) → List Message
topic_list topic d = or_empty (Dict.get topic d)

abbrev pub clean_topics : ℕ → ℕ → Dict String (List Message) → Dict String (List Message)
clean_topics ttl now [] = []
clean_topics ttl now ((topic, ms) ∷ d) =
    (topic, keep (λ msg. ltb now (msg.time + ttl)) ms) ∷ clean_topics ttl now d

-- `_clean_messages`
unfoldable pub clean_messages : ℕ → ℕ → String → MqttClient → MqttClient
clean_messages ttl now broker_url s = elim (Dict.get broker_url s.messages) [
  | none ↦ s
  | some d ↦ record s { messages = Dict.set broker_url (clean_topics ttl now d) s.messages }
]

-- the two tables that a message needs
abbrev pub with_topic : String → String → MqttClient → MqttClient
with_topic broker_url topic s =
    let d = or_empty (Dict.get broker_url s.messages) in
    record s { messages = Dict.set broker_url (Dict.set topic (topic_list topic d) d) s.messages }

abbrev pub append_message : String → String → Message → MqttClient → MqttClient
append_message broker_url topic msg s =
    let d = or_empty (Dict.get broker_url s.messages) in
    record s {
      messages = Dict.set broker_url (Dict.set topic (topic_list topic d ++ msg ∷ []) d) s.messages;
    }

abbrev pub store_message :
    ℕ → String → String → Outcome Json → String → ℕ → ℕ → Exec MqttClient (Unit {0})
store_message ttl broker_url topic data_ id now later = do
  json ← lift data_
  modify (append_message broker_url topic (record { id = id; data_ = json; time = now }))
  modify (clean_messages ttl later broker_url)

-- `_new_message`, with the document of the message, the new ID, and the times of the
-- two calls of `time.time()`.
unfoldable pub new_message :
    ℕ → String → String → Outcome Json → String → ℕ → ℕ → Exec MqttClient (Unit {0})
new_message ttl broker_url topic data_ id now later s =
    (do
      check (Dict.contains broker_url s.msg_conditions) "Unknown broker in conditions"
      check (mem topic (or_empty (Dict.get broker_url s.msg_conditions))) "Unknown topic"
      modify (with_topic broker_url topic)
      store_message ttl broker_url topic data_ id now later)
      s

-- `_reconnect_client`: what the new connection subscribes to
unfoldable pub reconnect_client : String → Outcome (Unit {0}) → Exec MqttClient (List (String × ℕ))
reconnect_client broker_url reconnected s =
    (do
      check (Dict.contains broker_url s.clients) "Unknown broker"
      lift reconnected
      pure (or_empty (Dict.get broker_url s.topics)))
      s

unfoldable pub start_deliver_loop : String → Exec MqttClient (Unit {0})
start_deliver_loop broker_url s =
    (do
      check (not (Dict.contains broker_url s.deliver_stop_events)) "Stop event is already defined"
      modify
          (λ x. record x { deliver_stop_events = Dict.set broker_url false x.deliver_stop_events }))
      s

abbrev pub is_set : Option Bool → Bool
is_set none = false
is_set (some b) = b

abbrev pub stop_loop : String → Bool → Exec MqttClient (Unit {0})
stop_loop broker_url ended =
    modify (λ x. record x { deliver_stop_events = Dict.set broker_url true x.deliver_stop_events })
    >> check ended "Timeout waiting for message delivery loop"
    >> modify (λ x. record x { deliver_stop_events = Dict.pop broker_url x.deliver_stop_events })

-- `_stop_deliver_loop`; `ended` says whether the loop ends, which clears the event, before the timeout.
unfoldable pub stop_deliver_loop : String → Bool → Exec MqttClient (Unit {0})
stop_deliver_loop broker_url ended s =
    (do
      check (Dict.contains broker_url s.deliver_stop_events) "Unknown broker"
      check (not (is_set (Dict.get broker_url s.deliver_stop_events))) "Stop event is already set"
      stop_loop broker_url ended)
      s

-- A loop that ends after the timeout clears its event, which is still in the table.
unfoldable pub deliver_ends : String → MqttClient → MqttClient
deliver_ends broker_url s =
    if Dict.contains broker_url s.deliver_stop_events
    then record s { deliver_stop_events = Dict.set broker_url false s.deliver_stop_events }
    else s

abbrev pub connect_new : String → Outcome (Unit {0}) → Exec MqttClient (Unit {0})
connect_new broker_url connected =
    modify (λ x. record x { clients = Dict.set broker_url tt x.clients })
    >> lift connected
    >> start_deliver_loop broker_url

-- `_init_client`
unfoldable pub init_client : String → String → Outcome (Unit {0}) → Exec MqttClient (Unit {0})
unfolding start_deliver_loop
init_client broker_url ref_id connected s =
    let s' = record s { ref_counter = increase broker_url ref_id s.ref_counter } in
    if Dict.contains broker_url s.clients then (ok tt, s') else connect_new broker_url connected s'

abbrev pub drop_broker : String → MqttClient → MqttClient
drop_broker broker_url s = record s {
  clients = Dict.pop broker_url s.clients;
  messages = Dict.pop broker_url s.messages;
  msg_conditions = Dict.pop broker_url s.msg_conditions;
  topics = Dict.pop broker_url s.topics;
}

-- `_disconnect_client`: an exception of the loop or the library is logged.
unfoldable pub disconnect_client : String → String → Bool → MqttClient → MqttClient
unfolding stop_deliver_loop
disconnect_client broker_url ref_id ended s =
    let s' = record s { ref_counter = decrease broker_url ref_id s.ref_counter } in
    if has_any broker_url s'.ref_counter
    then s'
    else drop_broker broker_url (stop_deliver_loop broker_url ended s').1

abbrev pub add_pair : String → ℕ → List (String × ℕ) → List (String × ℕ)
add_pair topic qos xs =
    if any (λ y. y.0 == topic && y.1 == qos) xs then xs else xs ++ (topic, qos) ∷ []

-- `_subscribe`
unfoldable pub subscribe : String → String → ℕ → Outcome (Unit {0}) → Exec MqttClient (Unit {0})
subscribe broker_url topic qos subscribed s =
    if not (Dict.contains broker_url s.clients) then (ok tt, s) else (
      subscribed,
      record s {
        msg_conditions =
            Dict.set broker_url (set_add topic (or_empty (Dict.get broker_url s.msg_conditions)))
              s.msg_conditions;
        topics =
            Dict.set broker_url (add_pair topic qos (or_empty (Dict.get broker_url s.topics)))
              s.topics;
      },
    )

-- `_publish`: what is handed to the library, if there is a client
unfoldable pub publish {ℓ} : {A : Type ℓ} → String → A → MqttClient → Option A
publish broker_url message s = if Dict.contains broker_url s.clients then some message else none

abbrev on_time : Option ℕ → Message → Bool
on_time none msg = true
on_time (some from_time) msg = leb from_time msg.time

abbrev is_ignored : Option (List String) → Message → Bool
is_ignored none msg = false
is_ignored (some ids) msg = mem msg.id ids

-- `_topic_messages`, as a list
unfoldable pub topic_messages :
    String → String → Option ℕ → Option (List String) → MqttClient → List Message
topic_messages broker_url topic from_time ignore_ids s =
    keep (λ msg. on_time from_time msg && not (is_ignored ignore_ids msg))
      (topic_list topic (or_empty (Dict.get broker_url s.messages)))

-- The first match; the test may raise.
abbrev pub find_in : (Message → Outcome Bool) → List Message → Outcome (Option Message)
find_in func [] = ok none
find_in func (m ∷ ms) =
    let rest = find_in func ms in
    elim (func m) [ raised e ↦ raised e | ok true ↦ ok (some m) | ok false ↦ rest ]

-- `_next_match`
unfoldable pub next_match :
    String → String → (Message → Outcome Bool) → MqttClient → Outcome (Option Message)
unfolding topic_messages
next_match broker_url topic func s = find_in func (topic_messages broker_url topic none none s)
