-- ===== src/Ws/Handler.antt =====
-- wotpy/protocols/ws/handler.py: one connection. A task that handles a request runs to its end in one
-- step. Parameters: the server's look-up of the Thing (its result is part of the state), the JSON form
-- of a value, and the supply of subscription IDs.
use wotpy.Prelude.{
  ℕ, ◌+◌, String, Bool, true, false, ◌&&◌, Option, none, some, List, [], ◌∷◌, ◌++◌, ◌==◌, string_eq,
  if◌then◌else◌,
}
use wotpy.Outcome.{
  message_of, Error, key_error, type_error, attribute_error, assertion_error, user_error, Outcome,
  ok, raised, Exec, pure, throw, lift, from_option, gets, modify, ◌>>=◌, ◌>>◌,
}
use wotpy.Dict
use wotpy.Dict.{Dict, keys}
use wotpy.Json.{
  ℤ, Json, null, integer, str, obj, end, field, get_field, fields_of, is_object, is_string,
  if_there, is_there,
}
use wotpy.Exposed.{
  Platform, ExposedThing, Observable, read_property, handle_write_property, invoke_action, on_event,
  on_property_change, on_td_change,
}
use wotpy.Ws.Messages.{
  Message, request, response, error, emitted_item, construct, build_request, from_raw,
  invalid_method_params, internal_error, subscription_error,
}

-- SCHEMA_PARAMS_READ_PROPERTY, _ON_PROPERTY_CHANGE and _ON_EVENT
abbrev pub is_params_name : Json → Bool
is_params_name (obj fs) = if_there is_string (get_field "name" fs) && is_there (get_field "name" fs)
is_params_name _ = false

-- SCHEMA_PARAMS_WRITE_PROPERTY
abbrev pub is_params_write : Json → Bool
is_params_write (obj fs) =
    if_there is_string (get_field "name" fs)
    && (is_there (get_field "name" fs) && is_there (get_field "value" fs))
is_params_write _ = false

-- SCHEMA_PARAMS_DISPOSE
abbrev pub is_params_dispose : Json → Bool
is_params_dispose (obj fs) =
    if_there is_string (get_field "subscription" fs) && is_there (get_field "subscription" fs)
is_params_dispose _ = false

abbrev as_text : Option Json → Option String
as_text (some (str s)) = some s
as_text _ = none

module _ (p : Platform) (slugify : String → String) (json_of : p.Value → Option Json)
    (value_of : Json → p.Value) (uuid : ℕ → String) where
  open p use {Value}

  -- `exposed` is what `get_exposed_thing` of the server finds for the name: `none` is its ValueError.
  pub record Connection : Type 0 where
    pub exposed_thing_name : Option String
    pub exposed : Option (ExposedThing p)
    pub subscriptions : Dict String (Observable p)
    pub disposed : List String
    pub uuids : ℕ
    pub sent : List Message
    pub closed : Bool

  abbrev pub Action : Type 0 → Type 0
  Action A = Exec Connection A

  -- tornado: writing to a connection that is closing raises
  unfoldable pub write_message : Message → Action (Unit {0})
  write_message m s =
      if s.closed
      then (raised (user_error "WebSocketClosedError"), s)
      else (ok tt, record s { sent = s.sent ++ m ∷ [] })

  unfoldable pub write_error : String → ℤ → Json → Json → Action (Unit {0})
  unfolding write_message construct
  write_error message code msg_id data_ =
      lift (construct (error (str message) (integer code) data_ msg_id)) >>= λ m. write_message m

  -- A response is validated when it is built, and its result must have a JSON form.
  unfoldable pub respond : Option Json → Json → Action (Unit {0})
  unfolding write_message construct
  respond none msg_id = throw (type_error "Object is not JSON serializable")
  respond (some result) msg_id = lift (construct (response result msg_id)) >>= λ m. write_message m

  -- The property `exposed_thing` closes the connection and gives None where the server has no such
  -- Thing; the access to an attribute that follows raises.
  unfoldable pub on_exposed_thing : {A : Type 0} → Exec (ExposedThing p) A → Action A
  on_exposed_thing body s = elim s.exposed [
    | none ↦ (raised (attribute_error "NoneType"), record s { closed = true })
    | some e ↦ let (r, e') = body e in (r, record s { exposed = some e' })
  ]

  -- `open`
  unfoldable pub open_connection : String → Action (Unit {0})
  open_connection name s = elim s.exposed_thing_name [
    | some other ↦ (raised (assertion_error "self._exposed_thing_name is None"), s)
    | none ↦ elim s.exposed [
      | none ↦ (ok tt, record s { closed = true })
      | some e ↦ (ok tt, record s { exposed_thing_name = some name })
    ]
  ]

  unfoldable pub dispose_subscription : String → Connection → Connection
  dispose_subscription id s =
      if Dict.contains id s.subscriptions
      then record s {
        subscriptions = Dict.pop id s.subscriptions;
        disposed = s.disposed ++ id ∷ [];
      }
      else s

  unfoldable pub on_subscription_error : String → Error → Action (Unit {0})
  unfolding dispose_subscription write_error
  on_subscription_error id err =
      modify (dispose_subscription id)
      >> write_error (message_of err) subscription_error null
          (obj (field "subscription" (str id) end))

  -- `data_` is `to_json_obj` of the item's data. A TypeError of the constructor is not caught.
  unfoldable pub on_subscription_next : String → String → Json → Action (Unit {0})
  unfolding write_message construct
  on_subscription_next id name data_ =
      lift (construct (emitted_item (str id) (str name) data_)) >>= λ m. write_message m

  unfoldable pub on_subscription_completed : String → Connection → Connection
  unfolding dispose_subscription
  on_subscription_completed id = dispose_subscription id

  -- `_subscribe`; `reactivex.throw` calls `on_subscription_error` later, from the loop.
  abbrev subscribe : String → Observable p → Connection → Connection
  subscribe id observable s = record s { subscriptions = Dict.set id observable s.subscriptions }

  abbrev pub param : String → Json → Exec (ExposedThing p) String
  param key params = from_option (key_error key) (as_text (get_field key (fields_of params)))

  -- `try: ... except Exception as ex: write the error` and else respond with the result
  abbrev pub or_internal_error : Json → Outcome (Option Json) → Action (Unit {0})
  or_internal_error msg_id (raised e) = write_error (message_of e) internal_error msg_id null
  or_internal_error msg_id (ok result) = respond result msg_id

  abbrev pub answer : Json → Action (Option Json) → Action (Unit {0})
  answer msg_id body s = let (r, s') = body s in or_internal_error msg_id r s'

  -- The text of an exception that a library raises is its class here.
  abbrev invalid_params : Json → Action (Unit {0})
  invalid_params msg_id = write_error "ValidationError" invalid_method_params msg_id null

  abbrev pub as_json : Exec (ExposedThing p) Value → Exec (ExposedThing p) (Option Json)
  as_json body = body >>= λ v. pure (json_of v)

  unfoldable pub handle_get_property : Json → Json → Action (Unit {0})
  unfolding write_error respond on_exposed_thing
  handle_get_property params msg_id =
      if is_params_name params
      then answer msg_id (
          on_exposed_thing (param "name" params >>= λ name. as_json (read_property p slugify name)))
      else invalid_params msg_id

  abbrev value_param : Json → Value
  value_param params = elim (get_field "value" (fields_of params)) [
    | none ↦ p.null
    | some v ↦ value_of v
  ]

  unfoldable pub handle_set_property : Json → Json → Action (Unit {0})
  unfolding write_error respond on_exposed_thing
  handle_set_property params msg_id =
      if is_params_write params
      then answer msg_id (
          on_exposed_thing (
            param "name" params >>= λ name.
            handle_write_property p slugify name (value_param params) >>= λ _. pure (some null)))
      else invalid_params msg_id

  abbrev input_param : Json → Value
  input_param params = elim (get_field "parameters" (fields_of params)) [
    | none ↦ p.null
    | some v ↦ value_of v
  ]

  unfoldable pub handle_invoke_action : Json → Json → Action (Unit {0})
  unfolding write_error respond on_exposed_thing
  handle_invoke_action params msg_id =
      if is_params_name params
      then answer msg_id (
          on_exposed_thing (
            param "name" params >>= λ name.
            as_json (invoke_action p slugify name (input_param params))))
      else invalid_params msg_id

  -- The response goes out before the subscription is made.
  abbrev subscribe_to : Json → Exec (ExposedThing p) (Observable p) → Action (Unit {0})
  subscribe_to msg_id observable = do
    id ← (λ s. (ok (uuid s.uuids), record s { uuids = s.uuids + 1 }))
    respond (some (str id)) msg_id
    source ← on_exposed_thing observable
    modify (subscribe id source)

  unfoldable pub handle_on_property_change : Json → Json → Action (Unit {0})
  unfolding write_error respond on_exposed_thing
  handle_on_property_change params msg_id =
      if is_params_name params
      then subscribe_to msg_id
          (param "name" params >>= λ name e. (on_property_change p slugify name e, e))
      else invalid_params msg_id

  unfoldable pub handle_on_td_change : Json → Json → Action (Unit {0})
  unfolding write_error respond on_exposed_thing
  handle_on_td_change params msg_id =
      if is_object params
      then subscribe_to msg_id (gets (on_td_change p))
      else invalid_params msg_id

  unfoldable pub handle_on_event : Json → Json → Action (Unit {0})
  unfolding write_error respond on_exposed_thing
  handle_on_event params msg_id =
      if is_params_name params
      then subscribe_to msg_id (param "name" params >>= λ name. gets (on_event p name))
      else invalid_params msg_id

  abbrev dispose_of : String → Json → Action (Unit {0})
  dispose_of id msg_id s =
      if Dict.contains id s.subscriptions
      then respond (some (str id)) msg_id (dispose_subscription id s)
      else respond (some null) msg_id s

  abbrev dispose_named : Option String → Json → Action (Unit {0})
  dispose_named none msg_id = throw (key_error "subscription")
  dispose_named (some id) msg_id = dispose_of id msg_id

  unfoldable pub handle_dispose : Json → Json → Action (Unit {0})
  unfolding write_error respond dispose_subscription
  handle_dispose params msg_id =
      if is_params_dispose params
      then dispose_named (as_text (get_field "subscription" (fields_of params))) msg_id
      else invalid_params msg_id

  -- `_handle`
  unfoldable pub handle : Json → Json → Json → Action (Unit {0})
  handle (str method) params msg_id =
      if method == "read_property"
      then handle_get_property params msg_id
      else if method == "write_property"
      then handle_set_property params msg_id
      else if method == "invoke_action"
      then handle_invoke_action params msg_id
      else if method == "on_property_change"
      then handle_on_property_change params msg_id
      else if method == "on_td_change"
      then handle_on_td_change params msg_id
      else if method == "on_event"
      then handle_on_event params msg_id
      else if method == "dispose"
      then handle_dispose params msg_id
      else write_error "Unimplemented method" internal_error msg_id null
  handle _ params msg_id = write_error "Unimplemented method" internal_error msg_id null

  -- What becomes of the task that handles a request does not reach the caller.
  abbrev pub run_task : Action (Unit {0}) → Action (Unit {0})
  run_task task s = (ok tt, (task s).1)

  abbrev on_parsed : Outcome Message → Action (Unit {0})
  on_parsed (ok (request method params msg_id)) = run_task (handle method params msg_id)
  on_parsed (ok _) = pure tt
  on_parsed (raised e) = write_error (message_of e) internal_error null null

  unfoldable pub on_message : {Raw : Type 0} → (Raw → Option Json) → Raw → Action (Unit {0})
  unfolding write_error
  on_message loads message = on_parsed (from_raw loads build_request message)

  abbrev pub dispose_all : List String → Connection → Connection
  dispose_all [] s = s
  dispose_all (id ∷ ids) s = dispose_all ids (dispose_subscription id s)

  unfoldable pub on_close : Connection → Connection
  unfolding dispose_subscription
  on_close s = dispose_all (keys s.subscriptions) s
