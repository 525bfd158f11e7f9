-- ===== src/Ws/Answers.antt =====
-- What a request of the WebSockets client gets for the answer of the server.
use wotpy.Prelude.{
  ℕ, String, ◌≡◌, ◌∙◌, refl, ap, Bool, Bool-cases, inl, inr, true, false, Option, none, some, List,
  [], ◌∷◌, ◌++◌, ◌==◌, string_eq, nat_eq, eq_iff, arith, if◌then◌else◌,
}
use wotpy.Outcome.{ok, raised, client_timeout}
use wotpy.Dict
use wotpy.Dict.{Dict}
use wotpy.Dict.Laws.{get-set_same}
use wotpy.Json.{Json, str}
use wotpy.Thing.{Interaction}
use wotpy.Thing.WellFormed.{IsWellFormed}
use wotpy.Exposed.{Platform, ExposedThing, retrieve_property, get_property_value}
use wotpy.Ws.Messages.{Message, response, construct, to_dict, is_request, is_response}
use wotpy.Ws.Handler.{Connection, on_message, handle}
use wotpy.Ws.Access.{read_answer, read_params}
use wotpy.Ws.Parsing.{from_raw-request, from_raw-response}
use wotpy.Ws.Client.{
  WsClient, Condition, idle, waits, wake, id_of, notify_in, store_answer, parse_msg_response,
  receive,
}
use wotpy.Ws.Waiting.{wait_in, wait_begins, result_of, raise_message, await_answer, read_request}

get-notify_in :
    (id other : String) (c : Condition) (d : Dict String Condition)
    → Dict.get id d ≡ some c
    → Dict.get id (notify_in (str other) d) ≡ some (if id == other then wake c else c)
unfolding Dict.get
get-notify_in id other c [] h = absurd (ground arith)
get-notify_in id other c ((j, x) ∷ d) h = elim (Bool-cases (other == j)) [
  | inl same ↦
      rw same
        (ground (arith, eq_iff other j, eq_iff j id, eq_iff id other, get-notify_in id other c d))
  | inr not_same ↦
      rw not_same
        (ground (arith, eq_iff other j, eq_iff j id, eq_iff id other, get-notify_in id other c d))
]

get-notify_in_self :
    (id : String) (c : Condition) (d : Dict String Condition)
    → Dict.get id d ≡ some c
    → Dict.get id (notify_in (str id) d) ≡ some (wake c)
get-notify_in_self id c d h = rw (get-notify_in id id c d h, (eq_iff id id).1 refl) refl

get-wait_in :
    (id : String) (c : Condition) (d : Dict String Condition)
    → Dict.get id d ≡ some c
    → Dict.get id (wait_in id d) ≡ some waits
unfolding Dict.get
get-wait_in id c [] h = absurd (ground arith)
get-wait_in id c ((j, x) ∷ d) h = ground (arith, get-wait_in id c d)

-- A request of the URL is open: messages can be stored, the receive loop runs, and there is a condition.
pub record IsOpen (ws_url id : String) (c : Condition) (ms : List (Json × Message))
    (d : Dict String Condition) (s : WsClient) : Type 0 where
  pub stored : Dict.get ws_url s.messages ≡ some ms
  pub runs : Dict.get ws_url s.receive_stop_events ≡ some false
  pub conditions : Dict.get ws_url s.msg_conditions ≡ some d
  pub condition : Dict.get id d ≡ some c

module _ {Raw : Type 0} (loads : Raw → Option Json) where
  -- The client after an answer
  abbrev after_answer :
      String
      → String
      → List (Json × Message)
      → Dict String Condition
      → Message
      → WsClient
      → WsClient
  after_answer ws_url id ms d m s = record s {
    messages = Dict.set ws_url ((str id, m) ∷ ms) s.messages;
    msg_conditions = Dict.set ws_url (notify_in (str id) d) s.msg_conditions;
  }

  receive_answer :
      (ws_url id other : String) (raw : Raw) (m : Message) (c : Condition)
      (ms : List (Json × Message)) (d : Dict String Condition) (s : WsClient)
      → IsOpen ws_url id c ms d s
      → parse_msg_response loads raw ≡ some m
      → id_of m ≡ str other
      → receive loads ws_url (some raw) s ≡ after_answer ws_url other ms d m s
  unfolding receive store_answer
  receive_answer ws_url id other raw m c ms d s o parsed same =
      rw (o.runs, parsed, o.stored, same, o.conditions) refl

  raise_message_after :
      (ws_url id : String) (m : Message) (ms : List (Json × Message)) (d : Dict String Condition)
      (s : WsClient)
      → raise_message ws_url id (after_answer ws_url id ms d m s) ≡ result_of m
  unfolding raise_message
  raise_message_after ws_url id m ms d s =
      rw (get-set_same ws_url ((str id, m) ∷ ms) s.messages, (eq_iff id id).1 refl) refl

  -- Of any response or error that arrives, a request that waits gets its result, or the exception with
  -- its message, exactly where it has the request's ID; for another ID the request goes on waiting. A
  -- timeout that is raised in the wait ends the request, also after the answer came.
  pub await_answer-receive :
      (ws_url id other : String) (raw : Raw) (m : Message) (ms : List (Json × Message))
      (d : Dict String Condition) (s : WsClient) (timed_out : Bool)
      → IsOpen ws_url id waits ms d s
      → parse_msg_response loads raw ≡ some m
      → id_of m ≡ str other
      → await_answer ws_url id timed_out (receive loads ws_url (some raw) s) ≡ (
          if timed_out
          then some (raised client_timeout)
          else if id == other
          then some (result_of m)
          else none)
  unfolding await_answer
  await_answer-receive ws_url id other raw m ms d s true o parsed same = refl
  await_answer-receive ws_url id other raw m ms d s false o parsed same =
      ap (await_answer ws_url id false)
        (receive_answer ws_url id other raw m waits ms d s o parsed same)
      ∙ rw
          (
            get-set_same ws_url (notify_in (str other) d) s.msg_conditions,
            get-notify_in id other waits d o.condition,
          )
          (elim (Bool-cases (id == other)) [
            | inl own ↦
                rw (own, (eq_iff id other).0 own)
                  (rw (raise_message_after ws_url other m ms d s) refl)
            | inr not_own ↦ rw not_own refl
          ])

  -- An answer that arrives before the request begins to wait does not wake it: it is stored, but the
  -- request goes on waiting, and ends with its timeout if it has one.
  pub await_answer-wait_begins :
      (ws_url id : String) (raw : Raw) (m : Message) (ms : List (Json × Message))
      (d : Dict String Condition) (s : WsClient)
      → IsOpen ws_url id idle ms d s
      → parse_msg_response loads raw ≡ some m
      → id_of m ≡ str id
      → let s' = wait_begins ws_url id (receive loads ws_url (some raw) s) in
        (raise_message ws_url id s' ≡ result_of m)
        × (await_answer ws_url id false s' ≡ none)
        × (await_answer ws_url id true s' ≡ some (raised client_timeout))
  unfolding await_answer raise_message wait_begins
  await_answer-wait_begins ws_url id raw m ms d s o parsed same =
      let waiting =
        get-wait_in id idle (notify_in (str id) d) (get-notify_in_self id idle d o.condition) in
      let conditions = get-set_same ws_url (notify_in (str id) d) s.msg_conditions in
      let own = (eq_iff id id).1 refl in
      let stored = get-set_same ws_url ((str id, m) ∷ ms) s.messages in
      let table =
        get-set_same ws_url (wait_in id (notify_in (str id) d))
          (Dict.set ws_url (notify_in (str id) d) s.msg_conditions) in
      rw
        (
          receive_answer ws_url id id raw m idle ms d s o parsed same,
          conditions,
          stored,
          own,
          table,
          waiting,
        )
        (refl, refl, refl)

module _ (p : Platform) (slugify : String → String) (json_of : p.Value → Option Json)
    (value_of : Json → p.Value) (uuid : ℕ → String) {Raw : Type 0} (loads : Raw → Option Json)
    (dumps : Json → Raw) where
  -- A client that reads a property over an open connection to a well-formed Thing gets the JSON form of its
  -- value: the server answers the text of the request with one response, whose text wakes the request
  -- that waits; for a property without a handler, where JSON texts are read back as they were written.
  pub await_answer-on_message :
      ((j : Json) → loads (dumps j) ≡ some j)
      → (s : Connection p slugify json_of value_of uuid) (e : ExposedThing p) (i : Interaction)
        (ws_url name id : String) (v : Json) (ms : List (Json × Message))
        (d : Dict String Condition) (c : WsClient)
      → s.exposed ≡ some e
      → s.closed ≡ false
      → IsWellFormed slugify e.thing
      → Dict.get name e.thing.properties ≡ some i
      → Dict.get i.oid (e.handlers retrieve_property) ≡ none
      → json_of (get_property_value p i e) ≡ some v
      → IsOpen ws_url id waits ms d c
      → ((on_message p slugify json_of value_of uuid loads
            (dumps (to_dict (read_request name id)))
            s).1.sent
          ≡ s.sent ++ response v (str id) ∷ [])
        × (await_answer ws_url id false
              (receive loads ws_url (some (dumps (to_dict (response v (str id))))) c)
            ≡ some (ok v))
  unfolding on_message handle construct to_dict is_request is_response parse_msg_response
  await_answer-on_message law s e i ws_url name id v ms d c there open_ w g h j o =
      let asked =
        from_raw-request loads dumps law (str "read_property") (read_params name) (str id) refl in
      let answered = from_raw-response loads dumps law v (str id) refl in
      (
        rw
            (
              asked,
              read_answer p slugify json_of value_of uuid s e i name v (str id) there open_ refl w g
                  h j,
            )
            refl,
        await_answer-receive loads ws_url id id (dumps (to_dict (response v (str id))))
              (response v (str id)) ms d c false o (rw answered refl) refl
            ∙ rw ((eq_iff id id).1 refl) refl,
      )
