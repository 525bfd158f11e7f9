-- ===== src/Ws/Messages.antt =====
-- wotpy/protocols/ws/messages.py, with the schemas of wotpy/protocols/ws/schemas.py as the tests that
-- they stand for.
use wotpy.Prelude.{
  String, Bool, true, false, ◌&&◌, Option, none, some, List, [], ◌∷◌, ◌==◌, string_eq, any,
  if◌then◌else◌,
}
use wotpy.Outcome.{Outcome, ok, raised, type_error, key_error, value_error}
use wotpy.Json.{
  ℤ, negsuc, Json, null, integer, str, obj, Fields, end, field, get_field, fields_of, is_string,
  real, is_integer, is_container, if_there, is_there,
}

abbrev pub version : String
version = "2.0"

-- ws/enums.py
abbrev pub methods : List String
methods =
    "read_property" ∷ "write_property" ∷ "invoke_action" ∷ "on_property_change" ∷ "on_td_change"
    ∷ "on_event" ∷ "dispose" ∷ []

abbrev pub invalid_method_params : ℤ
invalid_method_params = negsuc 32601

abbrev pub internal_error : ℤ
internal_error = negsuc 32602

abbrev pub subscription_error : ℤ
subscription_error = negsuc 31999

-- SCHEMA_ID
abbrev pub is_id : Json → Bool
is_id (str s) = true
is_id (integer n) = true
is_id (real s is_integral) = is_integral
is_id null = true
is_id _ = false

abbrev is_version : Json → Bool
is_version (str s) = s == version
is_version _ = false

abbrev is_method : Json → Bool
is_method (str s) = any (λ m. m == s) methods
is_method _ = false

abbrev is_error_object : Json → Bool
is_error_object (obj fs) =
    if_there is_integer (get_field "code" fs)
    && (if_there is_string (get_field "message" fs)
        && (is_there (get_field "code" fs) && is_there (get_field "message" fs)))
is_error_object _ = false

-- SCHEMA_REQUEST, SCHEMA_RESPONSE, SCHEMA_ERROR, SCHEMA_EMITTED_ITEM
unfoldable pub is_request : Json → Bool
is_request (obj fs) =
    if_there is_version (get_field "jsonrpc" fs)
    && (if_there is_method (get_field "method" fs)
        && (if_there is_container (get_field "params" fs)
            && (if_there is_id (get_field "id" fs)
                && (is_there (get_field "jsonrpc" fs) && is_there (get_field "method" fs)))))
is_request _ = false

unfoldable pub is_response : Json → Bool
is_response (obj fs) =
    if_there is_version (get_field "jsonrpc" fs)
    && (if_there is_id (get_field "id" fs)
        && (is_there (get_field "jsonrpc" fs)
            && (is_there (get_field "result" fs) && is_there (get_field "id" fs))))
is_response _ = false

unfoldable pub is_error : Json → Bool
is_error (obj fs) =
    if_there is_version (get_field "jsonrpc" fs)
    && (if_there is_error_object (get_field "error" fs)
        && (if_there is_id (get_field "id" fs)
            && (is_there (get_field "jsonrpc" fs)
                && (is_there (get_field "error" fs) && is_there (get_field "id" fs)))))
is_error _ = false

unfoldable pub is_emitted_item : Json → Bool
is_emitted_item (obj fs) =
    if_there is_string (get_field "subscription" fs)
    && (if_there is_string (get_field "name" fs)
        && (is_there (get_field "subscription" fs)
            && (is_there (get_field "name" fs) && is_there (get_field "data" fs))))
is_emitted_item _ = false

-- The instances of the four message classes; `None` as an ID or as data is `null`.
pub data Message : Type 0 where
  request : (method : Json) (params msg_id : Json) → Message
  response : (result msg_id : Json) → Message
  error : (message code data_ msg_id : Json) → Message
  emitted_item : (subscription_id name data_ : Json) → Message

-- `to_dict`
unfoldable pub to_dict : Message → Json
to_dict (request method params msg_id) = obj (
    field "jsonrpc" (str version)
      (field "method" method (field "params" params (field "id" msg_id end))))
to_dict (response result msg_id) =
    obj (field "jsonrpc" (str version) (field "result" result (field "id" msg_id end)))
to_dict (error message code data_ msg_id) = obj (
    field "jsonrpc" (str version) (
      field "error" (obj (field "code" code (field "message" message (field "data" data_ end))))
        (field "id" msg_id end)))
to_dict (emitted_item subscription_id name data_) =
    obj (field "subscription" subscription_id (field "name" name (field "data" data_ end)))

abbrev pub schema_of : Message → Json → Bool
schema_of (request method params msg_id) = is_request
schema_of (response result msg_id) = is_response
schema_of (error message code data_ msg_id) = is_error
schema_of (emitted_item subscription_id name data_) = is_emitted_item

-- The constructors validate the message that they build. `WebsocketMessageError`, which they raise,
-- is no exception class, so that a TypeError is what is raised.
unfoldable pub construct : Message → Outcome Message
unfolding to_dict is_request is_response is_error is_emitted_item
construct m =
    if schema_of m (to_dict m)
    then ok m
    else raised (type_error "exceptions must derive from BaseException")

-- `msg[key]` and `msg.get(key, None)`
abbrev item : String → Fields → (Json → Outcome Message) → Outcome Message
item key fs then_ = elim (get_field key fs) [ none ↦ raised (key_error key) | some v ↦ then_ v ]

abbrev item_or_none : String → Fields → Json
item_or_none key fs = elim (get_field key fs) [ none ↦ null | some v ↦ v ]

abbrev invalid : Outcome Message
invalid = raised (value_error "ValidationError")

-- The bodies of the four `from_raw`, on the parsed document.
unfoldable pub build_request : Json → Outcome Message
unfolding construct
build_request msg =
    if is_request msg
    then item "method" (fields_of msg) (λ method.
      item "params" (fields_of msg)
        (λ params. construct (request method params (item_or_none "id" (fields_of msg)))))
    else invalid

unfoldable pub build_response : Json → Outcome Message
unfolding construct
build_response msg =
    if is_response msg
    then item "result" (fields_of msg)
        (λ result. construct (response result (item_or_none "id" (fields_of msg))))
    else invalid

unfoldable pub build_error : Json → Outcome Message
unfolding construct
build_error msg =
    if is_error msg
    then item "error" (fields_of msg) (λ err. item "message" (fields_of err) (λ message.
      item "code" (fields_of err) (λ code. construct (
        error message code (item_or_none "data" (fields_of err))
          (item_or_none "id" (fields_of msg))))))
    else invalid

unfoldable pub build_emitted_item : Json → Outcome Message
unfolding construct
build_emitted_item msg =
    if is_emitted_item msg
    then item "subscription" (fields_of msg) (λ subscription_id.
      item "name" (fields_of msg) (λ name.
        item "data" (fields_of msg) (λ data_. construct (emitted_item subscription_id name data_))))
    else invalid

-- `json.loads` raises or returns a document. Every exception becomes a WebsocketMessageException.
abbrev pub message_exception : Outcome Message
message_exception = raised (value_error "WebsocketMessageException")

abbrev as_message_exception : Outcome Message → Outcome Message
as_message_exception (ok m) = ok m
as_message_exception (raised e) = message_exception

module _ {Raw : Type 0} (loads : Raw → Option Json) where
  abbrev pub from_raw : (Json → Outcome Message) → Raw → Outcome Message
  from_raw build raw_msg = elim (loads raw_msg) [
    | none ↦ message_exception
    | some msg ↦ as_message_exception (build msg)
  ]

  abbrev or_try : Outcome Message → Outcome Message → Outcome Message
  or_try (ok m) next = ok m
  or_try (raised e) next = next

  -- `parse_ws_message`
  unfoldable pub parse_ws_message : Raw → Outcome Message
  parse_ws_message raw_msg = or_try (from_raw build_request raw_msg) (
      or_try (from_raw build_error raw_msg) (
        or_try (from_raw build_response raw_msg)
          (or_try (from_raw build_emitted_item raw_msg) message_exception)))
