-- ===== src/Ws/Replies.antt =====
-- How `_handle` refuses a request.
use wotpy.Prelude.{
  ℕ, String, ◌≡◌, Bool, Bool-cases, inl, inr, true, false, Option, All, List, [], ◌∷◌, ◌++◌, ◌==◌,
  string_eq, eq_iff, any, arith, if◌then◌else◌,
}
use wotpy.Outcome.{ok}
use wotpy.Json.{ℤ, Json, null, integer, str, is_object}
use wotpy.Exposed.{Platform}
use wotpy.Ws.Messages.{error, construct, to_dict, is_error, is_id, methods, invalid_method_params}
use wotpy.Ws.Handler.{
  Connection, handle, write_message, write_error, is_params_name, is_params_write,
  is_params_dispose, handle_get_property, handle_set_property, handle_invoke_action,
  handle_on_property_change, handle_on_td_change, handle_on_event, handle_dispose,
}

-- The schema that the parameters of each method must meet.
abbrev pub is_params_of : String → Json → Bool
is_params_of method params =
    if method == "write_property"
    then is_params_write params
    else if method == "on_td_change"
    then is_object params
    else if method == "dispose"
    then is_params_dispose params
    else is_params_name params

-- What holds of every element of a list holds of its members.
All-any :
    (P : String → Type 0) (ms : List String) (method : String)
    → All P ms
    → any (λ m. m == method) ms ≡ true
    → P method
All-any P [] method h k = absurd (ground arith)
All-any P (m ∷ ms) method h k = elim (Bool-cases (m == method)) [
  | inl same ↦ rw (← (eq_iff m method).0 same) h.0
  | inr other ↦ All-any P ms method h.1 (ground arith)
]

module _ (p : Platform) (slugify : String → String) (json_of : p.Value → Option Json)
    (value_of : Json → p.Value) (uuid : ℕ → String) where
  -- An error that reaches an open connection is one more message.
  write_error_open :
      (s : Connection p slugify json_of value_of uuid) (text : String) (code : ℤ)
      (msg_id data_ : Json)
      → s.closed ≡ false
      → is_id msg_id ≡ true
      → write_error p slugify json_of value_of uuid text code msg_id data_ s
        ≡ (ok tt, record s { sent = s.sent ++ error (str text) (integer code) data_ msg_id ∷ [] })
  unfolding write_error write_message construct to_dict is_error
  write_error_open s text code msg_id data_ open_ i = ground arith

  -- On an open connection, a request for one of the seven methods whose parameters do not meet the
  -- schema of that method is answered by one error with the code for invalid parameters and the ID of
  -- the request, and changes nothing else. (The text of the library's exception is its class here.)
  pub handle-invalid_params :
      (s : Connection p slugify json_of value_of uuid) (method : String) (params msg_id : Json)
      → s.closed ≡ false
      → is_id msg_id ≡ true
      → any (λ m. m == method) methods ≡ true
      → is_params_of method params ≡ false
      → handle p slugify json_of value_of uuid (str method) params msg_id s ≡ (
        ok tt,
        record s {
          sent =
              s.sent
              ++ error (str "ValidationError") (integer invalid_method_params) null msg_id ∷ [];
        },
      )
  unfolding handle handle_get_property handle_set_property handle_invoke_action
      handle_on_property_change handle_on_td_change handle_on_event handle_dispose
  handle-invalid_params s method params msg_id open_ i known =
      let refused : String → Type 0 = λ m.
        is_params_of m params ≡ false
        → handle p slugify json_of value_of uuid (str m) params msg_id s ≡ (
          ok tt,
          record s {
            sent =
                s.sent
                ++ error (str "ValidationError") (integer invalid_method_params) null msg_id ∷ [];
          },
        ) in
      let answered =
        write_error_open s "ValidationError" invalid_method_params msg_id null open_ i in
      All-any refused methods method
        (
          λ bad. rw bad answered,
          (
            λ bad. rw bad answered,
            (
              λ bad. rw bad answered,
              (
                λ bad. rw bad answered,
                (λ bad. rw bad answered, (λ bad. rw bad answered, (λ bad. rw bad answered, tt))),
              ),
            ),
          ),
        )
        known
