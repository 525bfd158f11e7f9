-- ===== src/Tests/Sockets.antt =====
-- A WebSockets client that reads the lamp's status, its subscription, and the loops of the MQTT client.
use wotpy.Prelude.{
  ℕ, String, ◌≡◌, refl, Bool, true, false, none, some, List, [], ◌∷◌, ◌++◌, map, string_eq, ◌==◌,
  nat_eq,
}
use wotpy.Outcome.{ok, raised, client_timeout}
use wotpy.Dict
use wotpy.Json.{Json, str, integer, pos}
use wotpy.Exposed.{get_property_value}
use wotpy.Ws.{response, construct, to_dict, on_message}
use wotpy.Ws.Parsing.{from_raw-response}
use wotpy.Ws.Client.{WsClient, Condition, idle, waits, new_client, parse_msg_response, receive}
use wotpy.Ws.Waiting.{raise_message, await_answer, wait_begins, read_request}
use wotpy.Ws.Connections.{
  Step, step_init, step_send, step_start, step_receive, step_stop, run_steps, IsKept,
}
use wotpy.Ws.Runs.{run_steps-IsKept}
use wotpy.Ws.Answers.{
  IsOpen, await_answer-receive, await_answer-wait_begins, await_answer-on_message,
}
use wotpy.Ws.Streaming.{on_next, new_stream, on_msgs}
use wotpy.Ws.Streaming.Subscribed.{Item, texts, own_data, on_msgs-texts}
use wotpy.Mqtt.Calls.{Check, invoke_result, write_result, read_result}
use wotpy.Tests.Runners.{waiting}
use wotpy.Mqtt.Timeouts.{ends, results-end}
use wotpy.Tests.Data.{numbers, slug, exposed_lamp, status}
use wotpy.Tests.Exposing.{whole_lamp-IsWellFormed, status_there, no_handler}
use wotpy.Tests.Wire.{number_text, number_of, same_id, watching}

abbrev text_of_result : Json
text_of_result = to_dict (response (integer (pos 0)) (str "i1"))

abbrev five_steps : List (Step Json)
five_steps =
    step_init "ws://h" "r1" (ok tt)
    ∷ step_start "ws://h"
    ∷ step_send "ws://h" "i1" (ok tt)
    ∷ step_receive "ws://h" (some text_of_result)
    ∷ step_stop "ws://h" "r1"
    ∷ []

run_steps-IsKept_example : IsKept (run_steps some five_steps new_client) "ws://h"
run_steps-IsKept_example = run_steps-IsKept some five_steps "ws://h"

abbrev asking : Condition → WsClient
asking c = record new_client {
  messages = ("ws://h", []) ∷ [];
  receive_stop_events = ("ws://h", false) ∷ [];
  msg_conditions = ("ws://h", ("i1", c) ∷ []) ∷ [];
}

is_open : (c : Condition) → IsOpen "ws://h" "i1" c [] (("i1", c) ∷ []) (asking c)
unfolding Dict.get
is_open c = record { stored = refl; runs = refl; conditions = refl; condition = refl }

parsed :
    parse_msg_response {Raw = Json} some text_of_result
    ≡ some (response (integer (pos 0)) (str "i1"))
unfolding parse_msg_response construct
parsed =
    rw (from_raw-response {Raw = Json} some (λ j. j) (λ j. refl) (integer (pos 0)) (str "i1") refl)
      refl

await_answer-receive_example :
    await_answer "ws://h" "i1" false (receive some "ws://h" (some text_of_result) (asking waits))
    ≡ some (ok (integer (pos 0)))
await_answer-receive_example =
    await_answer-receive {Raw = Json} some "ws://h" "i1" "i1" text_of_result
      (response (integer (pos 0)) (str "i1")) [] (("i1", waits) ∷ []) (asking waits) false
      (is_open waits) parsed refl

await_answer-wait_begins_example :
    let s' =
      wait_begins "ws://h" "i1" (receive some "ws://h" (some text_of_result) (asking idle)) in
    (raise_message "ws://h" "i1" s' ≡ ok (integer (pos 0)))
    × (await_answer "ws://h" "i1" false s' ≡ none)
    × (await_answer "ws://h" "i1" true s' ≡ some (raised client_timeout))
await_answer-wait_begins_example =
    await_answer-wait_begins {Raw = Json} some "ws://h" "i1" text_of_result
      (response (integer (pos 0)) (str "i1")) [] (("i1", idle) ∷ []) (asking idle) (is_open idle)
      parsed refl

zero_status : number_text (get_property_value numbers status exposed_lamp) ≡ some (integer (pos 0))
unfolding Dict.get
zero_status = refl

await_answer-on_message_example :
    ((on_message numbers slug number_text number_of same_id {Raw = Json} some
        (to_dict (read_request "Status" "i1"))
        watching).1.sent
      ≡ [] ++ response (integer (pos 0)) (str "i1") ∷ [])
    × (await_answer "ws://h" "i1" false (receive some "ws://h" (some text_of_result) (asking waits))
        ≡ some (ok (integer (pos 0))))
await_answer-on_message_example =
    await_answer-on_message numbers slug number_text number_of same_id {Raw = Json} some (λ j. j)
      (λ j. refl) watching exposed_lamp status "ws://h" "Status" "i1" (integer (pos 0)) []
      (("i1", waits) ∷ []) (asking waits) refl refl whole_lamp-IsWellFormed status_there no_handler
      zero_status (is_open waits)

abbrev same : Json → Json → Bool
same (str s) (str t) = s == t
same j k = false

abbrev all_true : Json → Bool
all_true j = true

abbrev two_items : List Item
two_items =
    (record { sub_id = "s1"; name = "Status"; data_ = integer (pos 1) })
    ∷ (record { sub_id = "s2"; name = "Status"; data_ = integer (pos 2) })
    ∷ []

on_msgs-texts_example :
    (on_msgs {Raw = Json} {A = ℕ} some same all_true
      (λ j. ok (number_of j))
      (some (to_dict (response (str "s1") (str "i2")))
        ∷ texts {Raw = Json} some (λ j. j) (λ j. refl) same (λ s t. refl) all_true two_items)
      new_stream).observed
    ≡ map (λ j. on_next (number_of j)) (own_data "s1" two_items)
on_msgs-texts_example =
    on_msgs-texts {Raw = Json} some (λ j. j) (λ j. refl) same (λ s t. refl) all_true number_of "s1"
      "i2" two_items

abbrev checks : List Check
checks = (record { now = 3; client = waiting }) ∷ (record { now = 9; client = waiting }) ∷ []

abbrev plain_text : Json → String
plain_text (str s) = s
plain_text _ = "?"

results-end_example :
    (ends (invoke_result plain_text 5 1 "mqtt://a" "t" "i1" checks) ≡ true)
    × (ends (write_result 5 1 "mqtt://a" "t" "a1" checks) ≡ true)
    × (ends (read_result 5 1 "mqtt://a" "t" 2 checks) ≡ true)
results-end_example = results-end plain_text 5 1 "mqtt://a" "t" "i1" "a1" 2 checks refl refl
