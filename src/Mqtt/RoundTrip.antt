-- ===== src/Mqtt/RoundTrip.antt =====
-- An invocation from the MQTT client to the handler of a server and back.
use wotpy.Prelude.{
  ℕ, ◌-◌, ◌+◌, ◌<◌, ◌≤◌, String, ◌≡◌, ◌∙◌, refl, ap, Bool, true, false, not, ◌&&◌, none, some, List,
  [], ◌∷◌, ◌++◌, ◌==◌, nat_eq, string_eq, eq_iff, ltb, text_eq, arith,
}
use wotpy.Outcome.{Outcome, ok, raised, user_error, message_of}
use wotpy.Dict
use wotpy.Json.{Json, str, obj, integer, pos, end, field}
use wotpy.Sets.{mem}
use wotpy.Thing.{Interaction}
use wotpy.Exposed.{Platform, ExposedThing}
use wotpy.Broker.{
  Wire, Binding, Published, Handler, document, build_action_result_topic, to_result_topic,
  url_name_of, url_name_of_thing, handle_action, invoke_for, outcome_field,
}
use wotpy.Broker.Invocations.{
  IsInvoked, invocation, said, handle_action_lem, to_result_topic-action_invocation_topic,
}
use wotpy.Mqtt.Client.{MqttClient, Message, or_empty, new_message, next_match}
use wotpy.Mqtt.Matching.{next_match-new_message}
use wotpy.Mqtt.Calls.{
  Check, loaded_json, input_data, field_is, await_match, invoke_result, result_of, answered,
}

-- What the caller gets for what the action did: an exception comes back as its message.
abbrev pub over_broker : Outcome Json → Outcome Json
over_broker (ok result) = ok result
over_broker (raised e) = raised (user_error (message_of e))

await_match_found :
    (timeout ini : ℕ) (broker_url topic : String) (func : Message → Outcome Bool) (c : Check)
    (cs : List Check) (m : Message)
    → c.now - ini ≤ timeout
    → next_match broker_url topic func c.client ≡ ok (some m)
    → await_match timeout ini broker_url topic func (c ∷ cs) ≡ some (ok m)
unfolding await_match
await_match_found timeout ini broker_url topic func c cs m timely found =
    let late : (not (timeout == 0) && ltb timeout (c.now - ini)) ≡ false = ground arith in
    rw (late, found) refl

module _ (p : Platform) (w : Wire p) where
  open w use {Data, loads, dumps}

  -- The document that answers an invocation
  abbrev pub answer : String → ℕ → Outcome Json → Json
  answer id now_ms r =
      obj (field "id" (str id) (field "timestamp" (integer (pos now_ms)) (outcome_field p w r)))

  result_of-answer :
      (text_of : Json → String) (id : String) (now_ms : ℕ) (r : Outcome Json) (mid : String)
      (time : ℕ)
      → ((s : String) → text_of (str s) ≡ s)
      → result_of text_of (record { id = mid; data_ = answer id now_ms r; time = time })
        ≡ over_broker r
  result_of-answer text_of id now_ms (ok result) mid time h = refl
  result_of-answer text_of id now_ms (raised e) mid time h =
      ap (λ s. raised (user_error s)) (h (message_of e))

  field_is-answer :
      (id : String) (now_ms : ℕ) (r : Outcome Json) (mid : String) (time : ℕ)
      → field_is "id" id (record { id = mid; data_ = answer id now_ms r; time = time }) ≡ ok true
  field_is-answer id now_ms r mid time = ap ok ((eq_iff id id).1 refl)

  -- An invocation that a client publishes on the topic of an action, whose Thing and action are
  -- the first with their URL names and have no slash in them, is answered by one message, on the
  -- topic that the client finds from that one, unless `json.dumps` refuses the result. When the client
  -- has received it where it waits, where documents are read back as they were written, no message before
  -- it has the ID, and the clean-up comes within its lifetime, the loop of `invoke_action` ends at
  -- its next check before the timeout, with what the action returned, or with an exception
  -- that has the message of the action's.
  pub invoke_result-handle_action :
      (text_of : Json → String) (b : Binding) (now_ms : ℕ) (h : Handler p w)
      (xs ys : List (ExposedThing p)) (e : ExposedThing p) (act : Interaction) (id : String)
      (input_value : Json) (ttl : ℕ) (broker_url topic mid : String)
      (now later timeout ini check_time : ℕ) (s : MqttClient) (cs : List Check) (r : Outcome Json)
      → ((j : Json) → loads (dumps j) ≡ document j)
      → ((t : String) → text_of (str t) ≡ t)
      → IsInvoked p w b h xs ys e act
      → Dict.contains broker_url s.msg_conditions ≡ true
      → mem topic (or_empty (Dict.get broker_url s.msg_conditions)) ≡ true
      → next_match broker_url topic (field_is "id" id) s ≡ ok none
      → later < now + ttl
      → check_time - ini ≤ timeout
      → said p w (invoke_for p w (field "id" (str id) (field "input" input_value end)) act e).0
        ≡ some r
      → let message : Published p w = record {
        topic =
            build_action_result_topic b.servient_id (url_name_of_thing p w e) (url_name_of p w act);
        data_ = dumps (answer id now_ms r);
        qos = b.qos_rw;
      } in
        let s' =
          (new_message ttl broker_url topic
            (loaded_json (loads message.data_))
            mid
            now
            later
            s).1 in
        ((handle_action p w b now_ms
            (invocation p w b e act (dumps (input_data id input_value)))
            h).1.queue
          ≡ h.queue ++ message ∷ [])
        × (to_result_topic (invocation p w b e act (dumps (input_data id input_value))).topic
            ≡ ok message.topic)
        × (invoke_result text_of timeout ini broker_url topic id
              ((record { now = check_time; client = s' }) ∷ cs)
            ≡ some (over_broker r))
  unfolding invoke_result
  invoke_result-handle_action text_of b now_ms h xs ys e act id input_value ttl broker_url topic mid
        now later timeout ini check_time s cs r law text invoked known listens before alive timely
        answered_by =
      let fields = field "id" (str id) (field "input" input_value end) in
      let msg : Message = record { id = mid; data_ = answer id now_ms r; time = now } in
      let found =
        next_match-new_message ttl broker_url topic (answer id now_ms r) mid now later
          (field_is "id" id) s known listens before (field_is-answer id now_ms r mid now) alive in
      (
        ap (λ x. x.1.queue)
              (handle_action_lem p w b now_ms h xs ys e act (dumps (input_data id input_value))
                fields invoked (law (input_data id input_value)))
            ∙ rw answered_by refl,
        to_result_topic-action_invocation_topic b.servient_id (url_name_of_thing p w e)
            (url_name_of p w act) invoked.servient_part invoked.thing_part invoked.action_part,
        rw (law (answer id now_ms r)) (
            ap (answered (result_of text_of)) (
              await_match_found timeout ini broker_url topic (field_is "id" id)
                (record {
                  now = check_time;
                  client =
                      (new_message ttl broker_url topic (ok (answer id now_ms r)) mid now later
                        s).1;
                })
                cs msg timely found)
            ∙ ap some (result_of-answer text_of id now_ms r mid now text)),
      )
