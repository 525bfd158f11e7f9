-- ===== src/Ws/Waiting.antt =====
-- wotpy/protocols/ws/client.py: the wait of a request for its answer, and what the requests of an
-- interaction do up to the wait.
use wotpy.Prelude.{
  String, Bool, true, false, Option, none, some, List, [], ◌∷◌, ◌==◌, string_eq, if◌then◌else◌,
}
use wotpy.Outcome.{
  assertion_error, type_error, client_timeout, user_error, Outcome, ok, raised, Exec, pure, throw,
  lift, ◌>>=◌, ◌>>◌,
}
use wotpy.Dict
use wotpy.Dict.{Dict}
use wotpy.Json.{Json, str, obj, end, field}
use wotpy.Ws.Messages.{Message, request, response, error, construct}
use wotpy.Ws.Client.{
  is_id_text, WsClient, Condition, waits, notified, init_conn, send_message, conditions_of,
}

abbrev pub find_answer : String → List (Json × Message) → Option Message
find_answer id [] = none
find_answer id ((msg_id, m) ∷ ms) =
    let rest = find_answer id ms in if is_id_text id msg_id then some m else rest

-- `raise Exception(msg.message)` of a text
abbrev pub result_of : Message → Outcome Json
result_of (error (str s) code data_ msg_id) = raised (user_error s)
result_of (error message code data_ msg_id) = raised (user_error "")
result_of (response result msg_id) = ok result
result_of _ = raised (type_error "no result")

abbrev pub or_unknown : Option Message → Outcome Json
or_unknown none = raised (assertion_error "Unknown message ID")
or_unknown (some m) = result_of m

abbrev pub raise_found : String → Option (List (Json × Message)) → Outcome Json
raise_found id none = raised (assertion_error "Unknown WS connection")
raise_found id (some ms) = or_unknown (find_answer id ms)

-- `_raise_message`
unfoldable pub raise_message : String → String → WsClient → Outcome Json
raise_message ws_url id s = raise_found id (Dict.get ws_url s.messages)

abbrev pub wait_in : String → Dict String Condition → Dict String Condition
wait_in id [] = []
wait_in id ((j, c) ∷ d) = if j == id then (j, waits) ∷ d else (j, c) ∷ wait_in id d

abbrev pub wait_found : String → String → Option (Dict String Condition) → WsClient → WsClient
wait_found ws_url id none s = s
wait_found ws_url id (some d) s = record s {
  msg_conditions = Dict.set ws_url (wait_in id d) s.msg_conditions;
}

-- `condition.wait()` begins: of a condition that is still in the table
unfoldable pub wait_begins : String → String → WsClient → WsClient
wait_begins ws_url id s = wait_found ws_url id (Dict.get ws_url s.msg_conditions) s

-- What a request that waits gets. `asyncio.wait_for` may raise its timeout before or after the request
-- was notified; where it does not, the request gets nothing while it was not notified.
abbrev pub woken : Bool → Outcome Json → Option Condition → Option (Outcome Json)
woken true result _ = some (raised client_timeout)
woken false result (some notified) = some result
woken false result _ = none

unfoldable pub await_answer : String → String → Bool → WsClient → Option (Outcome Json)
unfolding raise_message
await_answer ws_url id timed_out s =
    woken timed_out (raise_message ws_url id s)
      (Dict.get id (conditions_of (Dict.get ws_url s.msg_conditions)))

-- The requests of `invoke_action`, `write_property` and `read_property`
abbrev pub invoke_request : String → Json → String → Message
invoke_request name input_value id =
    request (str "invoke_action")
      (obj (field "name" (str name) (field "parameters" input_value end))) (str id)

abbrev pub write_request : String → Json → String → Message
write_request name value id =
    request (str "write_property") (obj (field "name" (str name) (field "value" value end)))
      (str id)

abbrev pub read_request : String → String → Message
read_request name id = request (str "read_property") (obj (field "name" (str name) end)) (str id)

-- What they do up to the wait, in one: the connection, the request and the message. The document goes to
-- the library. Without a condition the wait raises.
unfoldable pub request_sent :
    String
    → String
    → String
    → Message
    → Outcome (Unit {0})
    → Outcome (Unit {0})
    → Exec WsClient Message
unfolding init_conn send_message construct
request_sent ws_url ref_id id msg connected written s =
    (do
      init_conn ws_url ref_id connected
      msg_req ← lift (construct msg)
      there ← send_message ws_url id written
      (if there then pure msg_req else throw (type_error "NoneType")))
      s
