-- ===== src/Ws/Runs.antt =====
-- Requests, answers and connections of the WebSockets client in any order.
use wotpy.Prelude.{
  String, ◌≡◌, refl, Bool, Bool-cases, inl, inr, true, false, Option, none, some, List, [], ◌∷◌,
  string_eq,
}
use wotpy.Outcome.{Outcome, ok, raised}
use wotpy.Dict
use wotpy.Dict.{Dict}
use wotpy.Dict.Laws.{contains-get}
use wotpy.Json.{Json}
use wotpy.Ws.Messages.{Message}
use wotpy.Ws.Client.{
  WsClient, Condition, idle, new_client, send_message, if_written, open_conditions, conditions_of,
  start_receive, receive, store_answer, store_parsed, parse_msg_response, notify, notify_in, id_of,
  notify_found, store_found, while_running,
}
use wotpy.Ws.Waiting.{wait_begins, wait_in, wait_found}
use wotpy.Ws.Connections.{
  Step, step_init, step_stop, step_send, step_wait, step_start, step_receive, run_step, run_steps,
  IsKept, new_client-IsKept, init_conn-IsKept, stop_conn-IsKept, conditions_set, messages_set,
}

send_message-IsKept :
    (ws_url id : String) (written : Outcome (Unit {0})) (s : WsClient) (u : String)
    → IsKept s u
    → IsKept (send_message ws_url id written s).1 u
unfolding send_message
send_message-IsKept ws_url id written s u k = elim (Bool-cases (Dict.contains ws_url s.conns)) [
  | inr absent ↦ rw absent k
  | inl there ↦
      let opened =
        conditions_set ws_url (conditions_of (Dict.get ws_url s.msg_conditions)) s u there k in
      rw there (go written there opened)
]
  where
    go :
        (w : Outcome (Unit {0}))
        → Dict.contains ws_url s.conns ≡ true
        → IsKept (open_conditions ws_url s) u
        → IsKept (if_written ws_url id w (open_conditions ws_url s)).1 u
    go (raised e) there o = o
    go (ok x) there o =
        let s' = open_conditions ws_url s in
        conditions_set ws_url (Dict.set id idle (conditions_of (Dict.get ws_url s'.msg_conditions)))
          s' u there o

start_receive-IsKept :
    (ws_url : String) (s : WsClient) (u : String) → IsKept s u → IsKept (start_receive ws_url s) u
unfolding start_receive
start_receive-IsKept ws_url s u k = elim (Bool-cases (Dict.contains ws_url s.conns)) [
  | inr absent ↦ rw absent k
  | inl there ↦ elim (Bool-cases (Dict.contains ws_url s.messages)) [
    | inl old ↦ rw (there, old) k
    | inr fresh ↦ rw (there, fresh) (messages_set ws_url [] s u there k)
  ]
]

-- All URLs at once: a table of this URL stands for its connection.
module _ (s : WsClient) (k : (x : String) → IsKept s x) (u : String) where
  wait_begins-IsKept : (ws_url id : String) → IsKept (wait_begins ws_url id s) u
  unfolding wait_begins
  wait_begins-IsKept ws_url id = go (Dict.get ws_url s.msg_conditions) refl
    where
      go :
          (o : Option (Dict String Condition))
          → Dict.get ws_url s.msg_conditions ≡ o
          → IsKept (wait_found ws_url id o s) u
      go none e = k u
      go (some d) e =
          conditions_set ws_url (wait_in id d) s u
            ((k ws_url).conditions (contains-get ws_url d s.msg_conditions e)) (k u)

  notify-IsKept :
      (ws_url : String) (msg_id : Json) (ms : List (Json × Message))
      → Dict.contains ws_url s.conns ≡ true
      → IsKept (notify ws_url msg_id (record s { messages = Dict.set ws_url ms s.messages })) u
  notify-IsKept ws_url msg_id ms there = go (Dict.get ws_url s.msg_conditions)
    where
      stored : WsClient
      stored = record s { messages = Dict.set ws_url ms s.messages }

      go : (o : Option (Dict String Condition)) → IsKept (notify_found ws_url msg_id o stored) u
      go none = messages_set ws_url ms s u there (k u)
      go (some d) =
          conditions_set ws_url (notify_in msg_id d) stored u there
            (messages_set ws_url ms s u there (k u))

  store_answer-IsKept : (ws_url : String) (m : Message) → IsKept (store_answer ws_url m s) u
  unfolding store_answer
  store_answer-IsKept ws_url m = go (Dict.get ws_url s.messages) refl
    where
      go :
          (o : Option (List (Json × Message)))
          → Dict.get ws_url s.messages ≡ o
          → IsKept (store_found ws_url m o s) u
      go none e = k u
      go (some ms) e =
          notify-IsKept ws_url (id_of m) ((id_of m, m) ∷ ms)
            ((k ws_url).messages (contains-get ws_url ms s.messages e))

  store_parsed-IsKept : (ws_url : String) (o : Option Message) → IsKept (store_parsed ws_url o s) u
  store_parsed-IsKept ws_url none = k u
  store_parsed-IsKept ws_url (some m) = store_answer-IsKept ws_url m

module _ {Raw : Type 0} (loads : Raw → Option Json) where
  receive-IsKept :
      (ws_url : String) (raw_res : Option Raw) (s : WsClient)
      → ((x : String) → IsKept s x)
      → (u : String) → IsKept (receive loads ws_url raw_res s) u
  unfolding receive
  receive-IsKept ws_url none s k u = k u
  receive-IsKept ws_url (some raw) s k u = go (Dict.get ws_url s.receive_stop_events)
    where
      go : (o : Option Bool) → IsKept (while_running ws_url o (parse_msg_response loads raw) s) u
      go none = k u
      go (some true) = k u
      go (some false) = store_parsed-IsKept s k u ws_url (parse_msg_response loads raw)

  run_step-IsKept :
      (t : Step Raw) (s : WsClient)
      → ((x : String) → IsKept s x)
      → (u : String) → IsKept (run_step loads t s) u
  unfolding run_step
  run_step-IsKept (step_init ws_url ref_id connected) s k u =
      init_conn-IsKept ws_url ref_id connected s u (k u)
  run_step-IsKept (step_stop ws_url ref_id) s k u = stop_conn-IsKept ws_url ref_id s u (k u)
  run_step-IsKept (step_send ws_url id written) s k u =
      send_message-IsKept ws_url id written s u (k u)
  run_step-IsKept (step_wait ws_url id) s k u = wait_begins-IsKept s k u ws_url id
  run_step-IsKept (step_start ws_url) s k u = start_receive-IsKept ws_url s u (k u)
  run_step-IsKept (step_receive ws_url raw_res) s k u = receive-IsKept ws_url raw_res s k u

  run_from :
      (ts : List (Step Raw)) (s : WsClient)
      → ((x : String) → IsKept s x)
      → (u : String) → IsKept (run_steps loads ts s) u
  unfolding run_steps
  run_from [] s k u = k u
  run_from (t ∷ ts) s k u = run_from ts (run_step loads t s) (run_step-IsKept t s k) u

  -- After any sequence of connections, requests, answers and disconnections of a new client, with any
  -- results of the network library: a URL with a connection has a reference and a receive loop, one without
  -- has no loop, and the conditions and messages of a URL are there only with its connection.
  pub run_steps-IsKept :
      (ts : List (Step Raw)) (u : String) → IsKept (run_steps loads ts new_client) u
  run_steps-IsKept ts u = run_from ts new_client new_client-IsKept u
