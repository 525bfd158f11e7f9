-- ===== src/Ws/Streaming.antt =====
-- `_build_subscribe` of wotpy/protocols/ws/client.py: the stream of one subscription, over a connection of
-- its own. Parameters: Python's `==` and truth of documents, and what `on_next` of the operation makes
-- of an item, which may raise.
pub mod Subscribed
use wotpy.Prelude.{
  ℕ, String, ◌≡◌, ◌∙◌, refl, ap, Bool, Bool-cases, inl, inr, true, false, not, Option, none, some,
  List, [], ◌∷◌, ◌++◌, ◌==◌, string_eq, map, arith, if◌then◌else◌,
}
use mathlib.Core.List.{append_assoc, append-nil}
use wotpy.Outcome.{Error, key_error, type_error, user_error, attribute_error, Outcome, ok, raised}
use wotpy.Json.{Json, null, str, obj, Fields, end, get_field}
use wotpy.Ws.Messages.{
  Message, request, response, error, emitted_item, construct, to_dict, is_response, is_emitted_item,
  build_response, build_emitted_item, build_error, from_raw, message_exception,
}
use wotpy.Ws.Parsing.{from_raw-response, from_raw-emitted_item}
use wotpy.Ws.Client.{parse_msg_response, or_none}

-- What the observer gets. It gets nothing after an error, which ends the subscription.
pub data Notification (A : Type 0) : Type 0 where
  on_next : A → Notification A
  on_error : Error → Notification A

pub record Stream (A : Type 0) : Type 0 where
  pub sub_id : Option Json
  pub stopped : Bool
  pub observed : List (Notification A)

abbrev pub new_stream : {A : Type 0} → Stream A
new_stream = record { sub_id = none; stopped = false; observed = [] }

abbrev pub message_error : Json → Error
message_error (str s) = user_error s
message_error _ = user_error ""

abbrev pub or_none_json : Option Json → Json
or_none_json none = null
or_none_json (some j) = j

-- The name and value of a property change, `msg_item.data[...]`
abbrev with_field : String → Option Json → (Json → Outcome (Json × Json)) → Outcome (Json × Json)
with_field key none f = raised (key_error key)
with_field key (some j) f = f j

abbrev pub change_of : Json → Outcome (Json × Json)
change_of (obj fs) =
    with_field "name" (get_field "name" fs)
      (λ n. with_field "value" (get_field "value" fs) (λ v. ok (n, v)))
change_of _ = raised (type_error "indices")

module _ {Raw A : Type 0} (loads : Raw → Option Json) (same : Json → Json → Bool)
    (is_true : Json → Bool) (item_of : Json → Outcome A) where
  -- an error ends the stream
  abbrev pub fail : Error → Stream A → Stream A
  fail e s = record s { stopped = true; observed = s.observed ++ on_error e ∷ [] }

  -- `err.data and err.data.get("subscription")`
  abbrev pub subscription_of : Json → Outcome Json
  subscription_of (obj fs) =
      if is_true (obj fs) then ok (or_none_json (get_field "subscription" fs)) else ok (obj fs)
  subscription_of j = if is_true j then raised (attribute_error "get") else ok j

  -- The errors of the server, as `_parse_emitted_item` reads them
  abbrev of_subscription : Json → Json → Outcome Json → Outcome (Option Json)
  of_subscription message sub_id (raised e) = raised e
  of_subscription message sub_id (ok err_sub_id) =
      if same err_sub_id sub_id then raised (message_error message) else ok none

  abbrev parse_error : Outcome Message → Json → Outcome (Option Json)
  parse_error (ok (error message code data_ msg_id)) sub_id =
      of_subscription message sub_id (subscription_of data_)
  parse_error _ sub_id = ok none

  abbrev parse_item : Outcome Message → Outcome Message → Json → Outcome (Option Json)
  parse_item (ok (emitted_item subscription_id name data_)) err sub_id =
      if same subscription_id sub_id then ok (some data_) else parse_error err sub_id
  parse_item _ err sub_id = parse_error err sub_id

  -- `_parse_emitted_item`: the data of the item, if it is one of the subscription
  unfoldable pub parse_emitted_item : Raw → Json → Outcome (Option Json)
  parse_emitted_item raw_msg sub_id =
      parse_item (from_raw loads build_emitted_item raw_msg) (from_raw loads build_error raw_msg)
        sub_id

  abbrev emit_next : Outcome A → Stream A → Stream A
  emit_next (ok a) s = record s { observed = s.observed ++ on_next a ∷ [] }
  emit_next (raised e) s = fail e s

  abbrev pub on_item : Outcome (Option Json) → Stream A → Stream A
  on_item (raised e) s = fail e s
  on_item (ok none) s = s
  on_item (ok (some data_)) s = emit_next (item_of data_) s

  -- `on_next_event`
  unfoldable pub on_next_event : Raw → Json → Stream A → Stream A
  unfolding parse_emitted_item
  on_next_event raw_msg sub_id s = on_item (parse_emitted_item raw_msg sub_id) s

  abbrev pub on_response : Option Message → Stream A → Stream A
  on_response (some (error message code data_ msg_id)) s = fail (message_error message) s
  on_response (some (response result msg_id)) s = record s { sub_id = some result }
  on_response _ s = s

  -- `parse_subscription_id`
  unfoldable pub parse_subscription_id : Raw → Stream A → Stream A
  unfolding parse_msg_response
  parse_subscription_id raw_msg s = on_response (parse_msg_response loads raw_msg) s

  abbrev pub on_raw : Option Json → Raw → Stream A → Stream A
  on_raw none raw_msg s = parse_subscription_id raw_msg s
  on_raw (some sub_id) raw_msg s = on_next_event raw_msg sub_id s

  -- A round of the loop of `connect`; none is what a closed connection gives.
  unfoldable pub on_msg : Option Raw → Stream A → Stream A
  unfolding on_next_event parse_subscription_id
  on_msg none s = if s.stopped then s else fail (user_error "WS connection closed") s
  on_msg (some raw_msg) s = if s.stopped then s else on_raw s.sub_id raw_msg s

  unfoldable pub on_msgs : List (Option Raw) → Stream A → Stream A
  unfolding on_msg
  on_msgs [] s = s
  on_msgs (r ∷ rs) s = on_msgs rs (on_msg r s)
