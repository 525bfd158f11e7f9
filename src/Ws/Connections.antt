-- ===== src/Ws/Connections.antt =====
-- A connection of the WebSockets client has a reference, and nothing of a URL outlives its connection.
use wotpy.Prelude.{
  String, ◌≡◌, ◌∙◌, refl, Bool-cases, inl, inr, true, false, Option, List, [], ◌∷◌, ◌==◌, string_eq,
  eq_iff, arith,
}
use wotpy.Outcome.{Outcome, ok, raised}
use wotpy.Dict
use wotpy.Dict.{Dict}
use wotpy.Dict.Laws.{contains-set, contains-pop}
use wotpy.Json.{Json}
use wotpy.Refs.{increase, decrease, has_any}
use wotpy.Refs.Counting.{has_any-increase, has_any-decrease_other}
use wotpy.Ws.Messages.{Message}
use wotpy.Ws.Client.{
  WsClient, Condition, new_client, init_conn, connect, stop_conn, drop_conn, send_message,
  start_receive, receive,
}
use wotpy.Ws.Waiting.{wait_begins}

-- What the operations of the client and its receive loops do.
pub data Step (Raw : Type 0) : Type 0 where
  step_init : (ws_url ref_id : String) (connected : Outcome (Unit {0})) → Step Raw
  step_stop : (ws_url ref_id : String) → Step Raw
  step_send : (ws_url id : String) (written : Outcome (Unit {0})) → Step Raw
  step_wait : (ws_url id : String) → Step Raw
  step_start : (ws_url : String) → Step Raw
  step_receive : (ws_url : String) (raw_res : Option Raw) → Step Raw

module _ {Raw : Type 0} (loads : Raw → Option Json) where
  unfoldable pub run_step : Step Raw → WsClient → WsClient
  unfolding init_conn stop_conn send_message wait_begins start_receive receive
  run_step (step_init ws_url ref_id connected) s = (init_conn ws_url ref_id connected s).1
  run_step (step_stop ws_url ref_id) s = stop_conn ws_url ref_id s
  run_step (step_send ws_url id written) s = (send_message ws_url id written s).1
  run_step (step_wait ws_url id) s = wait_begins ws_url id s
  run_step (step_start ws_url) s = start_receive ws_url s
  run_step (step_receive ws_url raw_res) s = receive loads ws_url raw_res s

  unfoldable pub run_steps : List (Step Raw) → WsClient → WsClient
  unfolding run_step
  run_steps [] s = s
  run_steps (t ∷ ts) s = run_steps ts (run_step t s)

-- For each URL.
pub record IsKept (s : WsClient) (u : String) : Type 0 where
  pub reference : Dict.contains u s.conns ≡ true → has_any u s.ref_counter ≡ true
  pub loop : Dict.contains u s.receive_stop_events ≡ Dict.contains u s.conns
  pub conditions : Dict.contains u s.msg_conditions ≡ true → Dict.contains u s.conns ≡ true
  pub messages : Dict.contains u s.messages ≡ true → Dict.contains u s.conns ≡ true

pub new_client-IsKept : (u : String) → IsKept new_client u
unfolding Dict.contains
new_client-IsKept u = record {
  reference = λ h. absurd (ground arith);
  loop = refl;
  conditions = λ h. h;
  messages = λ h. h;
}

referred :
    (ws_url ref_id : String) (s : WsClient) (u : String)
    → IsKept s u
    → IsKept (record s { ref_counter = increase ws_url ref_id s.ref_counter }) u
referred ws_url ref_id s u k = record {
  reference = λ h. ground (arith, k.reference, has_any-increase ws_url ref_id u s.ref_counter);
  loop = k.loop;
  conditions = k.conditions;
  messages = k.messages;
}

connect-IsKept :
    (ws_url ref_id : String) (connected : Outcome (Unit {0})) (s : WsClient) (u : String)
    → IsKept s u
    → IsKept
        (connect ws_url connected
          (record s { ref_counter = increase ws_url ref_id s.ref_counter })).1
        u
connect-IsKept ws_url ref_id (raised e) s u k = referred ws_url ref_id s u k
connect-IsKept ws_url ref_id (ok x) s u k =
    let there = contains-set ws_url u tt s.conns in
    record {
      reference =
          λ h. ground (arith, there, k.reference, has_any-increase ws_url ref_id u s.ref_counter);
      loop = ground (arith, there, k.loop, contains-set ws_url u false s.receive_stop_events);
      conditions = λ h. ground (arith, there, k.conditions);
      messages = λ h. ground (arith, there, k.messages);
    }

pub init_conn-IsKept :
    (ws_url ref_id : String) (connected : Outcome (Unit {0})) (s : WsClient) (u : String)
    → IsKept s u
    → IsKept (init_conn ws_url ref_id connected s).1 u
unfolding init_conn
init_conn-IsKept ws_url ref_id connected s u k = elim (Bool-cases (Dict.contains ws_url s.conns)) [
  | inl there ↦ rw there (referred ws_url ref_id s u k)
  | inr fresh ↦ rw fresh (connect-IsKept ws_url ref_id connected s u k)
]

drop_conn-IsKept :
    (ws_url : String) (s : WsClient) (u : String)
    → ((ws_url == u) ≡ false → IsKept s u)
    → IsKept (drop_conn ws_url s) u
drop_conn-IsKept ws_url s u kept =
    let conns = contains-pop ws_url u s.conns in
    let loops = contains-pop ws_url u s.receive_stop_events in
    let conditions = contains-pop ws_url u s.msg_conditions in
    let messages = contains-pop ws_url u s.messages in
    elim (Bool-cases (ws_url == u)) [
      | inl same ↦ record {
        reference = λ h. ground (arith, conns);
        loop = ground (arith, conns, loops);
        conditions = λ h. ground (arith, conditions);
        messages = λ h. ground (arith, messages);
      }
      | inr other ↦
          let k = kept other in
          record {
            reference = λ h. ground (arith, conns, k.reference);
            loop = ground (arith, conns, loops, k.loop);
            conditions = λ h. ground (arith, conns, conditions, k.conditions);
            messages = λ h. ground (arith, conns, messages, k.messages);
          }
    ]

pub stop_conn-IsKept :
    (ws_url ref_id : String) (s : WsClient) (u : String)
    → IsKept s u
    → IsKept (stop_conn ws_url ref_id s) u
unfolding stop_conn
stop_conn-IsKept ws_url ref_id s u k =
    elim (Bool-cases (has_any ws_url (decrease ws_url ref_id s.ref_counter))) [
      | inl used ↦ rw used (elim (Bool-cases (ws_url == u)) [
        | inl same ↦ released (λ h. ground (arith, eq_iff ws_url u, used))
        | inr other ↦
            released
              (λ h. has_any-decrease_other ws_url ref_id u s.ref_counter other ∙ k.reference h)
      ])
      | inr unused ↦ rw unused (
          drop_conn-IsKept ws_url (record s { ref_counter = decrease ws_url ref_id s.ref_counter })
            u
            (λ other.
              released
                (λ h. has_any-decrease_other ws_url ref_id u s.ref_counter other ∙ k.reference h)))
    ]
  where
    released :
        (Dict.contains u s.conns ≡ true → has_any u (decrease ws_url ref_id s.ref_counter) ≡ true)
        → IsKept (record s { ref_counter = decrease ws_url ref_id s.ref_counter }) u
    released h = record {
      reference = h;
      loop = k.loop;
      conditions = k.conditions;
      messages = k.messages;
    }

-- A URL with a connection may get conditions and messages.
pub conditions_set :
    (ws_url : String) (d : Dict String Condition) (s : WsClient) (u : String)
    → Dict.contains ws_url s.conns ≡ true
    → IsKept s u
    → IsKept (record s { msg_conditions = Dict.set ws_url d s.msg_conditions }) u
conditions_set ws_url d s u there k = record {
  reference = k.reference;
  loop = k.loop;
  conditions =
      λ h. ground (arith, eq_iff ws_url u, k.conditions, contains-set ws_url u d s.msg_conditions);
  messages = k.messages;
}

pub messages_set :
    (ws_url : String) (ms : List (Json × Message)) (s : WsClient) (u : String)
    → Dict.contains ws_url s.conns ≡ true
    → IsKept s u
    → IsKept (record s { messages = Dict.set ws_url ms s.messages }) u
messages_set ws_url ms s u there k = record {
  reference = k.reference;
  loop = k.loop;
  conditions = k.conditions;
  messages = λ h. ground (arith, eq_iff ws_url u, k.messages, contains-set ws_url u ms s.messages);
}
