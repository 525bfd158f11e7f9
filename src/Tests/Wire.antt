-- ===== src/Tests/Wire.antt =====
-- References to connections, messages and one WebSockets connection.
use wotpy.Prelude.{ℕ, String, ◌≡◌, refl, false, Option, some, [], ◌∷◌, string_eq}
use wotpy.Outcome.{ok}
use wotpy.Refs.{ConnRefCounter}
use wotpy.Json.{Json, null, integer, str, arr, nil, pos}
use wotpy.Exposed.{filtered, td_change_filter}
use wotpy.Ws.{
  Message, request, error, construct, to_dict, parse_ws_message, is_request, invalid_method_params,
  Connection, handle,
}
use wotpy.Ws.Parsing.{parse_ws_message-to_json}
use wotpy.Ws.Replies.{handle-invalid_params}
use wotpy.Tests.Data.{slug, numbers, exposed_lamp}

abbrev one_ref : ConnRefCounter
one_ref = ("mqtt://host", "first" ∷ []) ∷ []

abbrev read_status : Message
read_status = request (str "read_property") (arr nil) (integer (pos 1))

read_status_accepted : construct read_status ≡ ok read_status
unfolding construct to_dict is_request
read_status_accepted = refl

parse_ws_message-to_json_example :
    parse_ws_message {Raw = Json} some (to_dict read_status) ≡ ok read_status
parse_ws_message-to_json_example =
    parse_ws_message-to_json {Raw = Json} some (λ j. j) (λ j. refl) read_status read_status_accepted

abbrev pub number_text : ℕ → Option Json
number_text n = some (integer (pos n))

abbrev pub number_of : Json → ℕ
number_of (integer (pos n)) = n
number_of _ = 0

abbrev pub same_id : ℕ → String
same_id n = "sub"

abbrev pub watching : Connection numbers slug number_text number_of same_id
watching = record {
  exposed_thing_name = some "Desk Lamp";
  exposed = some exposed_lamp;
  subscriptions = ("sub", filtered (td_change_filter numbers)) ∷ [];
  disposed = [];
  uuids = 1;
  sent = [];
  closed = false;
}

handle-invalid_params_example :
    handle numbers slug number_text number_of same_id
      (str "read_property")
      (arr nil)
      (integer (pos 3))
      watching
    ≡ (
      ok tt,
      record watching {
        sent =
            error (str "ValidationError") (integer invalid_method_params) null (integer (pos 3))
            ∷ [];
      },
    )
handle-invalid_params_example =
    handle-invalid_params numbers slug number_text number_of same_id watching "read_property"
      (arr nil) (integer (pos 3)) refl refl refl refl
