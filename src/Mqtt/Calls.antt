-- ===== src/Mqtt/Calls.antt =====
-- wotpy/protocols/mqtt/client.py: `invoke_action`, `write_property` and `read_property` in three parts, over
-- the state that they share with other operations: what they do up to the publication, the loop that
-- waits for the answer, and the disconnection (`disconnect_client`) of `finally`. Behind a form, which
-- says the broker and the topics.
use wotpy.Prelude.{
  ℕ, ◌-◌, String, Bool, not, ◌&&◌, Option, none, some, List, [], ◌∷◌, ◌==◌, nat_eq, string_eq, ltb,
  leb, if◌then◌else◌,
}
use wotpy.Outcome.{
  attribute_error, client_timeout, assertion_error, user_error, Outcome, ok, raised, Exec, ◌>>◌,
}
use wotpy.Dict
use wotpy.Json.{Json, null, str, obj, Fields, end, field, get_field}
use wotpy.Sets.{mem}
use wotpy.Broker.{is_text, Loaded, not_json, failed, document}
use wotpy.Mqtt.Client.{MqttClient, Message, or_empty, init_client, subscribe, publish, next_match}

-- The document of `json.loads` or its exception
abbrev pub loaded_json : Loaded → Outcome Json
loaded_json not_json = raised (user_error "JSONDecodeError")
loaded_json (failed e) = raised e
loaded_json (document j) = ok j

-- What is published: `published` is what the library says to it. Without a client nothing is.
abbrev pub on_published : {A : Type 0} → Option A → Outcome (Unit {0}) → Outcome (Option A)
on_published none published = ok none
on_published (some a) (ok u) = ok (some a)
on_published (some a) (raised e) = raised e

-- `_init_client`, `_subscribe` to the topic of answers, and `_publish`
unfoldable pub request :
    {A : Type 0}
    → String
    → String
    → String
    → ℕ
    → A
    → Outcome (Unit {0})
    → Outcome (Unit {0})
    → Outcome (Unit {0})
    → Exec MqttClient (Option A)
unfolding init_client subscribe publish
request broker_url ref_id topic qos payload connected subscribed published s =
    (do
      init_client broker_url ref_id connected
      subscribe broker_url topic qos subscribed
      λ x. (on_published (publish broker_url payload x) published, x))
      s

-- The documents that an invocation and a write send
abbrev pub input_data : String → Json → Json
input_data id input_value = obj (field "id" (str id) (field "input" input_value end))

abbrev pub write_data : Json → String → Json
write_data value ack =
    obj (field "action" (str "write") (field "value" value (field "ack" (str ack) end)))

-- What the loop finds when it checks: the time, and the client.
pub record Check : Type 0 where
  pub now : ℕ
  pub client : MqttClient

-- the assertions of `_wait_on_message`
unfoldable pub wait_on_message : String → String → MqttClient → Outcome (Unit {0})
wait_on_message broker_url topic s =
    if not (Dict.contains broker_url s.msg_conditions)
    then raised (assertion_error "Unknown broker URL")
    else if not (mem topic (or_empty (Dict.get broker_url s.msg_conditions)))
    then raised (assertion_error "Unknown topic")
    else ok tt

abbrev pub after_wait : {A : Type 0} → Outcome (Unit {0}) → Option (Outcome A) → Option (Outcome A)
after_wait (raised e) rest = some (raised e)
after_wait (ok u) rest = rest

abbrev pub on_match : Outcome (Option Message) → Option (Outcome Message) → Option (Outcome Message)
on_match (raised e) rest = some (raised e)
on_match (ok (some m)) rest = some (ok m)
on_match (ok none) rest = rest

-- The loop over its checks: none if they end before it does. A timeout of 0 is none.
unfoldable pub await_match :
    ℕ → ℕ → String → String → (Message → Outcome Bool) → List Check → Option (Outcome Message)
unfolding next_match wait_on_message
await_match timeout ini broker_url topic func [] = none
await_match timeout ini broker_url topic func (c ∷ cs) =
    let rest = await_match timeout ini broker_url topic func cs in
    if not (timeout == 0) && ltb timeout (c.now - ini)
    then some (raised client_timeout)
    else on_match (next_match broker_url topic func c.client)
        (after_wait (wait_on_message broker_url topic c.client) rest)

-- `msg.get(key) == value`
abbrev pub field_is : String → String → Message → Outcome Bool
field_is key value msg = elim msg.data_ [
  | obj fs ↦ ok (is_text value (get_field key fs))
  | _ ↦ raised (attribute_error "get")
]

abbrev pub or_null : Option Json → Json
or_null none = null
or_null (some j) = j

abbrev pub answered :
    {A : Type 0} → (Message → Outcome A) → Option (Outcome Message) → Option (Outcome A)
answered f none = none
answered f (some (raised e)) = some (raised e)
answered f (some (ok msg)) = some (f msg)

abbrev pub value_of : Message → Outcome Json
value_of msg = elim msg.data_ [
  | obj fs ↦ ok (or_null (get_field "value" fs))
  | _ ↦ raised (attribute_error "get")
]

-- the loop of `write_property` that waits for the acknowledgement
unfoldable pub write_result :
    ℕ → ℕ → String → String → String → List Check → Option (Outcome (Unit {0}))
unfolding await_match
write_result timeout ini broker_url topic ack cs =
    answered (λ msg. ok tt) (await_match timeout ini broker_url topic (field_is "ack" ack) cs)

-- the loop of `read_property`: the first update since the request
unfoldable pub read_result : ℕ → ℕ → String → String → ℕ → List Check → Option (Outcome Json)
unfolding await_match
read_result timeout ini broker_url topic read_time cs =
    answered value_of
      (await_match timeout ini broker_url topic (λ msg. ok (leb read_time msg.time)) cs)

module _ (text_of : Json → String) where
  -- an error that is not None is raised
  abbrev pub result_unless : Fields → Json → Outcome Json
  result_unless fs null = ok (or_null (get_field "result" fs))
  result_unless fs e = raised (user_error (text_of e))

  abbrev pub result_of : Message → Outcome Json
  result_of msg = elim msg.data_ [
    | obj fs ↦ result_unless fs (or_null (get_field "error" fs))
    | _ ↦ raised (attribute_error "get")
  ]

  -- the loop of `invoke_action`
  unfoldable pub invoke_result :
      ℕ → ℕ → String → String → String → List Check → Option (Outcome Json)
  unfolding await_match
  invoke_result timeout ini broker_url topic id cs =
      answered result_of (await_match timeout ini broker_url topic (field_is "id" id) cs)
