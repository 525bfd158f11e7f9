-- ===== src/Ws/Subscriptions.antt =====
-- Ending subscriptions: one by one at the client's request, and all of them with the connection.
use wotpy.Prelude.{
  ℕ, String, ◌≡◌, refl, sym, ap, ◌∙◌, Bool-cases, inl, inr, true, false, Option, some, [], ◌∷◌,
  ◌++◌, ◌==◌, string_eq, eq_iff, arith, if◌then◌else◌,
}
use mathlib.Core.List.{append_assoc, append-nil}
use wotpy.Outcome.{ok}
use wotpy.Dict
use wotpy.Dict.{Dict, keys, pop}
use wotpy.Dict.Laws.{contains-pop}
use wotpy.Json.{Json, null, str, obj, end, field}
use wotpy.Exposed.{Platform, Observable}
use wotpy.Ws.Messages.{response, construct, to_dict, is_response, is_id}
use wotpy.Ws.Handler.{
  Connection, dispose_subscription, dispose_all, on_close, handle_dispose, respond, write_message,
}

-- No key stands twice.
abbrev pub UniqueKeys : {V : Type 0} → Dict String V → Type 0
UniqueKeys [] = Unit
UniqueKeys ((k, v) ∷ d) = (Dict.contains k d ≡ false) × UniqueKeys d

pop-absent : {V : Type 0} (k : String) (d : Dict String V) → Dict.contains k d ≡ false → pop k d ≡ d
unfolding Dict.contains pop
pop-absent k [] h = refl
pop-absent k ((j, v) ∷ d) h = ground (arith, pop-absent k d)

pop-head :
    {V : Type 0} (k : String) (v : V) (d : Dict String V)
    → Dict.contains k d ≡ false
    → pop k ((k, v) ∷ d) ≡ d
unfolding pop
pop-head k v d h = ground (arith, pop-absent k d h, eq_iff k k)

contains-head :
    {V : Type 0} (k : String) (v : V) (d : Dict String V) → Dict.contains k ((k, v) ∷ d) ≡ true
unfolding Dict.contains
contains-head k v d = ground (arith, eq_iff k k)

contains-absent :
    {V : Type 0} (id other : String) (d : Dict String V)
    → Dict.contains id d ≡ false
    → Dict.contains other d ≡ (if id == other then false else Dict.contains other d)
contains-absent id other d absent = elim (Bool-cases (id == other)) [
  | inl same ↦ rw same (rw (← (eq_iff id other).0 same) absent)
  | inr apart ↦ rw apart refl
]

module _ (p : Platform) (slugify : String → String) (json_of : p.Value → Option Json)
    (value_of : Json → p.Value) (uuid : ℕ → String) where
  -- Disposing of the first of the subscriptions.
  dispose_first :
      (k : String) (v : Observable p) (d : Dict String (Observable p))
      (s : Connection p slugify json_of value_of uuid)
      → Dict.contains k d ≡ false
      → s.subscriptions ≡ (k, v) ∷ d
      → dispose_subscription p slugify json_of value_of uuid k s
        ≡ record s { subscriptions = d; disposed = s.disposed ++ k ∷ [] }
  unfolding dispose_subscription
  dispose_first k v d s h e =
      rw (e, contains-head k v d)
        (λ i. record s { subscriptions = pop-head k v d h i; disposed = s.disposed ++ k ∷ [] })

  dispose_all_lem :
      (d : Dict String (Observable p)) (s : Connection p slugify json_of value_of uuid)
      → UniqueKeys d
      → s.subscriptions ≡ d
      → dispose_all p slugify json_of value_of uuid (keys d) s
        ≡ record s { subscriptions = []; disposed = s.disposed ++ keys d }
  dispose_all_lem [] s u e =
      λ i. record s { subscriptions = e i; disposed = sym (append-nil s.disposed) i }
  dispose_all_lem ((k, v) ∷ d) s u e =
      let next : Connection p slugify json_of value_of uuid = record s {
        subscriptions = d;
        disposed = s.disposed ++ k ∷ [];
      } in
      ap (dispose_all p slugify json_of value_of uuid (keys d)) (dispose_first k v d s u.0 e)
      ∙ dispose_all_lem d next u.1 refl
      ∙ (λ i. record s {
        subscriptions = [];
        disposed = append_assoc s.disposed (k ∷ []) (keys d) i;
      })

  -- `on_close` disposes of every subscription once, in their order, leaves none, and changes nothing
  -- else, where no ID stands for two subscriptions.
  pub on_close_lem :
      (s : Connection p slugify json_of value_of uuid)
      → UniqueKeys s.subscriptions
      → on_close p slugify json_of value_of uuid s
        ≡ record s { subscriptions = []; disposed = s.disposed ++ keys s.subscriptions }
  unfolding on_close
  on_close_lem s u = dispose_all_lem s.subscriptions s u refl

  dispose_known :
      (id : String) (s : Connection p slugify json_of value_of uuid)
      → Dict.contains id s.subscriptions ≡ true
      → dispose_subscription p slugify json_of value_of uuid id s
        ≡ record s { subscriptions = pop id s.subscriptions; disposed = s.disposed ++ id ∷ [] }
  unfolding dispose_subscription
  dispose_known id s there = rw there refl

  pub respond_open :
      (result msg_id : Json) (s : Connection p slugify json_of value_of uuid)
      → s.closed ≡ false
      → is_id msg_id ≡ true
      → respond p slugify json_of value_of uuid (some result) msg_id s
        ≡ (ok tt, record s { sent = s.sent ++ response result msg_id ∷ [] })
  unfolding respond write_message construct to_dict is_response
  respond_open result msg_id s open_ i = ground arith

  -- What `handle_dispose` answers: the ID where it stands for a subscription, and else null.
  abbrev pub answer_of : String → Connection p slugify json_of value_of uuid → Json
  answer_of id s = if Dict.contains id s.subscriptions then str id else null

  abbrev pub dispose_request : String → Json
  dispose_request id = obj (field "subscription" (str id) end)

  answer_known :
      (s : Connection p slugify json_of value_of uuid) (id : String) (msg_id : Json)
      → Dict.contains id s.subscriptions ≡ true
      → s.closed ≡ false
      → is_id msg_id ≡ true
      → handle_dispose p slugify json_of value_of uuid (dispose_request id) msg_id s ≡ (
        ok tt,
        record s {
          subscriptions = pop id s.subscriptions;
          disposed = s.disposed ++ id ∷ [];
          sent = s.sent ++ response (str id) msg_id ∷ [];
        },
      )
  unfolding handle_dispose
  answer_known s id msg_id there open_ i =
      let send = respond p slugify json_of value_of uuid (some (str id)) msg_id in
      let unknown = respond p slugify json_of value_of uuid (some null) msg_id s in
      let next : Connection p slugify json_of value_of uuid = record s {
        subscriptions = pop id s.subscriptions;
        disposed = s.disposed ++ id ∷ [];
      } in
      ap
        (λ b.
          if b then send (dispose_subscription p slugify json_of value_of uuid id s) else unknown)
        there
      ∙ ap send (dispose_known id s there)
      ∙ respond_open (str id) msg_id next open_ i

  answer_unknown :
      (s : Connection p slugify json_of value_of uuid) (id : String) (msg_id : Json)
      → Dict.contains id s.subscriptions ≡ false
      → s.closed ≡ false
      → is_id msg_id ≡ true
      → handle_dispose p slugify json_of value_of uuid (dispose_request id) msg_id s
        ≡ (ok tt, record s { sent = s.sent ++ response null msg_id ∷ [] })
  unfolding handle_dispose
  answer_unknown s id msg_id absent open_ i =
      let known =
        respond p slugify json_of value_of uuid (some (str id)) msg_id
          (dispose_subscription p slugify json_of value_of uuid id s) in
      let unknown = respond p slugify json_of value_of uuid (some null) msg_id s in
      ap (λ b. if b then known else unknown) absent ∙ respond_open null msg_id s open_ i

  -- On an open connection, a request to dispose of a subscription is answered once, under the ID of
  -- the request, with the subscription's ID where there is one and else with null; the subscription
  -- is there no longer and all others stay.
  pub handle_dispose_lem :
      (s : Connection p slugify json_of value_of uuid) (id other : String) (msg_id : Json)
      → s.closed ≡ false
      → is_id msg_id ≡ true
      → let (r, u) = handle_dispose p slugify json_of value_of uuid (dispose_request id) msg_id s in
        (r ≡ ok tt)
        × (u.sent ≡ s.sent ++ response (answer_of id s) msg_id ∷ [])
        × (Dict.contains other u.subscriptions
            ≡ (if id == other then false else Dict.contains other s.subscriptions))
  handle_dispose_lem s id other msg_id open_ i =
      elim (Bool-cases (Dict.contains id s.subscriptions)) [
        | inl there ↦
            rw (answer_known s id msg_id there open_ i, there)
              (refl, refl, contains-pop id other s.subscriptions)
        | inr absent ↦
            rw (answer_unknown s id msg_id absent open_ i, absent)
              (refl, refl, contains-absent id other s.subscriptions absent)
      ]
