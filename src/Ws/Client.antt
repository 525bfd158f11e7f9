-- ===== src/Ws/Client.antt =====
-- wotpy/protocols/ws/client.py: the connections of the client that its operations share, and the answers
-- that wait for them. What the network library answers is an argument. A coroutine that holds the
-- lock runs to its end in one step.
use wotpy.Prelude.{
  String, Bool, true, false, not, Option, none, some, List, [], ◌∷◌, ◌==◌, string_eq, if◌then◌else◌,
}
use wotpy.Outcome.{Outcome, ok, raised, Exec}
use wotpy.Dict
use wotpy.Dict.{Dict}
use wotpy.Json.{Json, str}
use wotpy.Refs.{ConnRefCounter, increase, decrease, has_any}
use wotpy.Ws.Messages.{
  Message, request, response, error, emitted_item, build_response, build_error, from_raw,
}

-- What becomes of a condition: nobody waits yet, somebody waits, or was notified.
pub data Condition : Type 0 where
  idle waits notified : Condition

-- Each table is by URL. `messages` are looked up by ID and never removed, so the newest stands first and
-- an older one of the same ID may stay behind it.
pub record WsClient : Type 0 where
  pub conns : Dict String (Unit {0})
  pub ref_counter : ConnRefCounter
  pub msg_conditions : Dict String (Dict String Condition)
  pub messages : Dict String (List (Json × Message))
  pub receive_stop_events : Dict String Bool

abbrev pub new_client : WsClient
new_client = record {
  conns = [];
  ref_counter = [];
  msg_conditions = [];
  messages = [];
  receive_stop_events = [];
}

-- `_init_conn`: an exception of the library leaves no connection
abbrev pub connect : String → Outcome (Unit {0}) → Exec WsClient (Unit {0})
connect ws_url (raised e) s = (raised e, s)
connect ws_url (ok u) s = (
  ok tt,
  record s {
    conns = Dict.set ws_url tt s.conns;
    receive_stop_events = Dict.set ws_url false s.receive_stop_events;
  },
)

unfoldable pub init_conn : String → String → Outcome (Unit {0}) → Exec WsClient (Unit {0})
init_conn ws_url ref_id connected s =
    let s' = record s { ref_counter = increase ws_url ref_id s.ref_counter } in
    if Dict.contains ws_url s.conns then (ok tt, s') else connect ws_url connected s'

abbrev pub drop_conn : String → WsClient → WsClient
drop_conn ws_url s = record s {
  receive_stop_events = Dict.pop ws_url s.receive_stop_events;
  conns = Dict.pop ws_url s.conns;
  messages = Dict.pop ws_url s.messages;
  msg_conditions = Dict.pop ws_url s.msg_conditions;
}

-- `_stop_conn`, which waits until the receive loop has seen its stop event
unfoldable pub stop_conn : String → String → WsClient → WsClient
stop_conn ws_url ref_id s =
    let s' = record s { ref_counter = decrease ws_url ref_id s.ref_counter } in
    if has_any ws_url s'.ref_counter then s' else drop_conn ws_url s'

abbrev pub conditions_of : Option (Dict String Condition) → Dict String Condition
conditions_of none = []
conditions_of (some d) = d

abbrev pub put_condition : String → String → Condition → WsClient → WsClient
put_condition ws_url id c s = record s {
  msg_conditions =
      Dict.set ws_url (Dict.set id c (conditions_of (Dict.get ws_url s.msg_conditions)))
        s.msg_conditions;
}

abbrev pub open_conditions : String → WsClient → WsClient
open_conditions ws_url s = record s {
  msg_conditions =
      Dict.set ws_url (conditions_of (Dict.get ws_url s.msg_conditions)) s.msg_conditions;
}

abbrev pub if_written : String → String → Outcome (Unit {0}) → Exec WsClient Bool
if_written ws_url id (raised e) s = (raised e, s)
if_written ws_url id (ok u) s = (ok true, put_condition ws_url id idle s)

-- `_send_message`: whether there is a condition to wait for. `written` is what `write_message` does.
unfoldable pub send_message : String → String → Outcome (Unit {0}) → Exec WsClient Bool
send_message ws_url id written s =
    if not (Dict.contains ws_url s.conns)
    then (ok false, s)
    else if_written ws_url id written (open_conditions ws_url s)

-- The start of `_receive_loop`
abbrev pub with_messages : String → WsClient → WsClient
with_messages ws_url s =
    if Dict.contains ws_url s.messages
    then s
    else record s { messages = Dict.set ws_url [] s.messages }

unfoldable pub start_receive : String → WsClient → WsClient
start_receive ws_url s = if Dict.contains ws_url s.conns then with_messages ws_url s else s

abbrev pub id_of : Message → Json
id_of (request method params msg_id) = msg_id
id_of (response result msg_id) = msg_id
id_of (error message code data_ msg_id) = msg_id
id_of (emitted_item subscription_id name data_) = subscription_id

abbrev pub is_id_text : String → Json → Bool
is_id_text id (str s) = s == id
is_id_text id _ = false

abbrev pub wake : Condition → Condition
wake idle = idle
wake waits = notified
wake notified = notified

abbrev pub notify_in : Json → Dict String Condition → Dict String Condition
notify_in msg_id [] = []
notify_in msg_id ((id, c) ∷ d) =
    let rest = notify_in msg_id d in
    if is_id_text id msg_id then (id, wake c) ∷ rest else (id, c) ∷ rest

abbrev pub notify_found : String → Json → Option (Dict String Condition) → WsClient → WsClient
notify_found ws_url msg_id none s = s
notify_found ws_url msg_id (some d) s = record s {
  msg_conditions = Dict.set ws_url (notify_in msg_id d) s.msg_conditions;
}

abbrev pub notify : String → Json → WsClient → WsClient
notify ws_url msg_id s = notify_found ws_url msg_id (Dict.get ws_url s.msg_conditions) s

-- A URL without messages is a KeyError, which the loop logs.
abbrev pub store_found : String → Message → Option (List (Json × Message)) → WsClient → WsClient
store_found ws_url msg none s = s
store_found ws_url msg (some ms) s =
    notify ws_url (id_of msg)
      (record s { messages = Dict.set ws_url ((id_of msg, msg) ∷ ms) s.messages })

unfoldable pub store_answer : String → Message → WsClient → WsClient
store_answer ws_url msg s = store_found ws_url msg (Dict.get ws_url s.messages) s

abbrev pub or_none : Outcome Message → Option Message → Option Message
or_none (ok m) rest = some m
or_none (raised e) rest = rest

abbrev pub store_parsed : String → Option Message → WsClient → WsClient
store_parsed ws_url none s = s
store_parsed ws_url (some m) s = store_answer ws_url m s

abbrev pub while_running : String → Option Bool → Option Message → WsClient → WsClient
while_running ws_url none m s = s
while_running ws_url (some true) m s = s
while_running ws_url (some false) m s = store_parsed ws_url m s

module _ {Raw : Type 0} (loads : Raw → Option Json) where
  -- `_parse_msg_response`
  unfoldable pub parse_msg_response : Raw → Option Message
  parse_msg_response raw_msg =
      or_none (from_raw loads build_response raw_msg)
        (or_none (from_raw loads build_error raw_msg) none)

  -- A round of `_receive_loop`; none is what a closed connection gives. A loop whose stop event is set
  -- does nothing more.
  unfoldable pub receive : String → Option Raw → WsClient → WsClient
  unfolding parse_msg_response store_answer
  receive ws_url none s = s
  receive ws_url (some raw_res) s =
      while_running ws_url (Dict.get ws_url s.receive_stop_events) (parse_msg_response raw_res) s
