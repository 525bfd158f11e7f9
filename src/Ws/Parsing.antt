-- ===== src/Ws/Parsing.antt =====
-- A message that is sent is read back as it was.
use wotpy.Prelude.{◌≡◌, Option, some, string_eq, arith}
use wotpy.Outcome.{ok}
use wotpy.Json.{Json}
use wotpy.Ws.Messages.{
  Message, request, response, error, emitted_item, is_request, is_response, is_error,
  is_emitted_item, to_dict, construct, build_request, build_response, build_error,
  build_emitted_item, parse_ws_message, from_raw, message_exception,
}

module _ {Raw : Type 0} (loads : Raw → Option Json) (dumps : Json → Raw)
    (loads-dumps : (j : Json) → loads (dumps j) ≡ some j) where
  -- Any message that its class accepts is parsed back, from the text that `to_json` makes of it, as an
  -- instance of the same class with the same fields; where JSON texts are read back as they were written.
  pub parse_ws_message-to_json :
      (m : Message) → construct m ≡ ok m → parse_ws_message loads (dumps (to_dict m)) ≡ ok m
  unfolding parse_ws_message build_request build_response build_error build_emitted_item construct
      to_dict is_request is_response is_error is_emitted_item
  parse_ws_message-to_json (request method params msg_id) h =
      ground (arith, loads-dumps (to_dict (request method params msg_id)))
  parse_ws_message-to_json (response result msg_id) h =
      ground (arith, loads-dumps (to_dict (response result msg_id)))
  parse_ws_message-to_json (error message code data_ msg_id) h =
      ground (arith, loads-dumps (to_dict (error message code data_ msg_id)))
  parse_ws_message-to_json (emitted_item subscription_id name data_) h =
      ground (arith, loads-dumps (to_dict (emitted_item subscription_id name data_)))

  -- The text of a request is read as that request, and a response or an error by the client as it was sent.
  pub from_raw-request :
      (method params msg_id : Json)
      → construct (request method params msg_id) ≡ ok (request method params msg_id)
      → from_raw loads build_request (dumps (to_dict (request method params msg_id)))
        ≡ ok (request method params msg_id)
  unfolding build_request construct to_dict is_request
  from_raw-request method params msg_id h =
      ground (arith, loads-dumps (to_dict (request method params msg_id)))

  pub from_raw-response :
      (result msg_id : Json)
      → construct (response result msg_id) ≡ ok (response result msg_id)
      → from_raw loads build_response (dumps (to_dict (response result msg_id)))
        ≡ ok (response result msg_id)
  unfolding build_response construct to_dict is_response
  from_raw-response result msg_id h = ground (arith, loads-dumps (to_dict (response result msg_id)))

  pub from_raw-error :
      (message code data_ msg_id : Json)
      → construct (error message code data_ msg_id) ≡ ok (error message code data_ msg_id)
      → (from_raw loads build_error (dumps (to_dict (error message code data_ msg_id)))
          ≡ ok (error message code data_ msg_id))
        × (from_raw loads build_response (dumps (to_dict (error message code data_ msg_id)))
            ≡ message_exception)
  unfolding build_error build_response construct to_dict is_error is_response
  from_raw-error message code data_ msg_id h = (
    ground (arith, loads-dumps (to_dict (error message code data_ msg_id))),
    ground (arith, loads-dumps (to_dict (error message code data_ msg_id))),
  )

  pub from_raw-emitted_item :
      (subscription_id name data_ : Json)
      → construct (emitted_item subscription_id name data_)
        ≡ ok (emitted_item subscription_id name data_)
      → from_raw loads build_emitted_item
          (dumps (to_dict (emitted_item subscription_id name data_)))
        ≡ ok (emitted_item subscription_id name data_)
  unfolding build_emitted_item construct to_dict is_emitted_item
  from_raw-emitted_item subscription_id name data_ h =
      ground (arith, loads-dumps (to_dict (emitted_item subscription_id name data_)))
