-- ===== src/Ws/Streaming/Subscribed.antt =====
-- The observer of a subscription gets the items of that subscription, in order.
use wotpy.Prelude.{
  String, ◌≡◌, ◌∙◌, refl, sym, ap, Bool, Bool-cases, inl, inr, false, Option, none, some, List, [],
  ◌∷◌, ◌++◌, ◌==◌, string_eq, map, arith, if◌then◌else◌,
}
use mathlib.Core.List.{append_assoc, append-nil}
use wotpy.Outcome.{ok}
use wotpy.Json.{Json, str}
use wotpy.Ws.Messages.{
  Message, response, emitted_item, construct, to_dict, is_response, is_emitted_item, build_error,
  is_error, from_raw, message_exception,
}
use wotpy.Ws.Parsing.{from_raw-response, from_raw-emitted_item}
use wotpy.Ws.Client.{parse_msg_response}
use wotpy.Ws.Streaming.{
  Stream, new_stream, Notification, on_next, parse_emitted_item, on_next_event, on_msg, on_msgs,
  parse_subscription_id,
}

-- An item that the server emits: its subscription, its name and its data
pub record Item : Type 0 where
  pub sub_id : String
  pub name : String
  pub data_ : Json

abbrev pub item_message : Item → Message
item_message i = emitted_item (str i.sub_id) (str i.name) i.data_

-- The data of the items of one subscription
abbrev pub own_data : String → List Item → List Json
own_data id [] = []
own_data id (i ∷ is) = if i.sub_id == id then i.data_ ∷ own_data id is else own_data id is

module _ {Raw : Type 0} (loads : Raw → Option Json) (dumps : Json → Raw)
    (loads-dumps : (j : Json) → loads (dumps j) ≡ some j) (same : Json → Json → Bool)
    (same-str : (s t : String) → same (str s) (str t) ≡ (s == t)) (is_true : Json → Bool) where
  -- An emitted item is no error.
  not_error :
      (i : Item) → from_raw loads build_error (dumps (to_dict (item_message i))) ≡ message_exception
  unfolding build_error to_dict is_error
  not_error i = ground (arith, loads-dumps (to_dict (item_message i)))

  abbrev pub texts : List Item → List (Option Raw)
  texts = map (λ i. some (dumps (to_dict (item_message i))))

  -- A stream of `A`s, whose operation makes `make` of each data
  module _ {A : Type 0} (make : Json → A) where
    parse_own :
        (id : String) (i : Item)
        → parse_emitted_item loads same is_true
            (λ j. ok (make j))
            (dumps (to_dict (item_message i)))
            (str id)
          ≡ ok (if i.sub_id == id then some i.data_ else none)
    unfolding parse_emitted_item construct is_emitted_item to_dict
    parse_own id i =
        rw
          (
            from_raw-emitted_item loads dumps loads-dumps (str i.sub_id) (str i.name) i.data_ refl,
            not_error i,
            same-str i.sub_id id,
          )
          (elim (Bool-cases (i.sub_id == id)) [ inl own ↦ rw own refl | inr other ↦ rw other refl ])

    abbrev pub seen : String → List Item → List (Notification A)
    seen id is = map (λ j. on_next (make j)) (own_data id is)

    on_msg_item :
        (id : String) (i : Item) (s : Stream A)
        → s.stopped ≡ false
        → s.sub_id ≡ some (str id)
        → on_msg loads same is_true (λ j. ok (make j)) (some (dumps (to_dict (item_message i)))) s
          ≡ record s { observed = s.observed ++ seen id (i ∷ []) }
    unfolding on_msg on_next_event
    on_msg_item id i s runs own =
        rw (runs, own, parse_own id i)
          (elim (Bool-cases (i.sub_id == id)) [
            | inl mine ↦ rw mine refl
            | inr other ↦ rw (other, append-nil s.observed) refl
          ])

    seen_cons :
        (id : String) (i : Item) (is : List Item)
        → seen id (i ∷ []) ++ seen id is ≡ seen id (i ∷ is)
    seen_cons id i is = elim (Bool-cases (i.sub_id == id)) [
      | inl mine ↦ rw mine refl
      | inr other ↦ rw other refl
    ]

    on_msgs_items :
        (id : String) (is : List Item) (s : Stream A)
        → s.stopped ≡ false
        → s.sub_id ≡ some (str id)
        → (on_msgs loads same is_true (λ j. ok (make j)) (texts is) s).observed
          ≡ s.observed ++ seen id is
    unfolding on_msgs
    on_msgs_items id [] s runs own = sym (append-nil s.observed)
    on_msgs_items id (i ∷ is) s runs own =
        let s' : Stream A = record s { observed = s.observed ++ seen id (i ∷ []) } in
        ap (λ x. (on_msgs loads same is_true (λ j. ok (make j)) (texts is) x).observed)
          (on_msg_item id i s runs own)
        ∙ on_msgs_items id is s' runs own
        ∙ append_assoc s.observed (seen id (i ∷ [])) (seen id is)
        ∙ ap (λ x. s.observed ++ x) (seen_cons id i is)

    started :
        (id request_id : String)
        → on_msg loads same is_true
            (λ j. ok (make j))
            (some (dumps (to_dict (response (str id) (str request_id)))))
            new_stream
          ≡ record new_stream { sub_id = some (str id) }
    unfolding on_msg parse_subscription_id parse_msg_response construct is_response to_dict
    started id request_id =
        rw (from_raw-response loads dumps loads-dumps (str id) (str request_id) refl) refl

    -- A subscription whose server answers with an ID and then sends emitted items, of this subscription and
    -- of others, gives its observer exactly what the operation makes of the data of its own
    -- items, each once and in order; where JSON texts are read back as they were written, and
    -- making an item does not raise.
    pub on_msgs-texts :
        (id request_id : String) (is : List Item)
        → (on_msgs loads same is_true
            (λ j. ok (make j))
            (some (dumps (to_dict (response (str id) (str request_id)))) ∷ texts is)
            new_stream).observed
          ≡ map (λ j. on_next (make j)) (own_data id is)
    unfolding on_msgs
    on_msgs-texts id request_id is =
        ap (λ x. (on_msgs loads same is_true (λ j. ok (make j)) (texts is) x).observed)
          (started id request_id)
        ∙ on_msgs_items id is (record new_stream { sub_id = some (str id) }) refl refl
