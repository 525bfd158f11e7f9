-- ===== src/Tests/Calls.antt =====
-- An invocation of the lamp over a broker.
use wotpy.Prelude.{String, ◌≡◌, refl, none, some, [], ◌∷◌, ◌++◌, codes, arith, string_eq}
use wotpy.Outcome.{Outcome, ok, raised, not_implemented}
use wotpy.Dict
use wotpy.Json.{Json, str, integer, pos, end, field}
use wotpy.Exposed.{action_invoke, invoke_action, get_handler, normalized, find_normalized_name}
use wotpy.Broker.{Published, build_action_result_topic, to_result_topic, handle_action, invoke_for}
use wotpy.Broker.Invocations.{invocation, said}
use wotpy.Mqtt.Client.{new_message, next_match, topic_messages}
use wotpy.Mqtt.Calls.{loaded_json, input_data, field_is, invoke_result}
use wotpy.Mqtt.RoundTrip.{answer, over_broker, invoke_result-handle_action}
use wotpy.Tests.Data.{numbers, exposed_lamp, toggle}
use wotpy.Tests.Brokers.{wire, binding, lamps, invoked}
use wotpy.Tests.Runners.{waiting, waits_on_broker, waits_on_topic}

abbrev plain_text : Json → String
plain_text (str s) = s
plain_text _ = "?"

no_answer_yet : next_match "mqtt://a" "t" (field_is "id" "i1") waiting ≡ ok none
unfolding next_match topic_messages Dict.get
no_answer_yet = refl

-- The action has no handler.
abbrev no_handler_error : Outcome Json
no_handler_error = raised (not_implemented "Undefined action handler")

toggle_refused :
    said numbers wire
      (invoke_for numbers wire
        (field "id" (str "i1") (field "input" (integer (pos 2)) end))
        toggle
        exposed_lamp).0
    ≡ some no_handler_error
unfolding action_invoke invoke_action get_handler normalized find_normalized_name Dict.get
toggle_refused = refl

invoke_result-handle_action_example :
    let r = no_handler_error in
    let message : Published numbers wire = record {
      topic = build_action_result_topic binding.servient_id (codes "desk-lamp") (codes "toggle");
      data_ = answer numbers wire "i1" 9 r;
      qos = binding.qos_rw;
    } in
    let s' =
      (new_message 15000 "mqtt://a" "t"
        (loaded_json (wire.loads message.data_))
        "m1"
        5
        6
        waiting).1 in
    ((handle_action numbers wire binding 9
        (invocation numbers wire binding exposed_lamp toggle (input_data "i1" (integer (pos 2))))
        lamps).1.queue
      ≡ lamps.queue ++ message ∷ [])
    × (to_result_topic
          (invocation numbers wire binding exposed_lamp toggle
            (input_data "i1" (integer (pos 2)))).topic
        ≡ ok message.topic)
    × (invoke_result plain_text 5000 4 "mqtt://a" "t" "i1" ((record { now = 7; client = s' }) ∷ [])
        ≡ some (over_broker r))
invoke_result-handle_action_example =
    invoke_result-handle_action numbers wire plain_text binding 9 lamps [] [] exposed_lamp toggle
      "i1" (integer (pos 2)) 15000 "mqtt://a" "t" "m1" 5 6 5000 4 7 waiting [] no_handler_error
      (λ j. refl) (λ t. refl) invoked waits_on_broker waits_on_topic no_answer_yet (omega arith)
      (omega arith) toggle_refused
