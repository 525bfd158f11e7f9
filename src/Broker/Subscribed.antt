-- ===== src/Broker/Subscribed.antt =====
-- After `refresh` the subscriptions are those to the observable interactions of the server's Things.
use wotpy.Prelude.{
  ℕ, ◌+◌, ◌≡◌, ◌∙◌, refl, Bool, Bool-cases, inl, inr, false, not, ◌&&◌, ◌||◌, Option, none, some,
  List, [], ◌∷◌, ◌==◌, nat_eq, nat_beq_iff, keep, arith, if◌then◌else◌,
}
use wotpy.Dict.{Dict, keys, get, contains, set}
use wotpy.Dict.Laws.{get-set, get-pop, contains-set}
use wotpy.Thing.{Thing, InteractionType}
use wotpy.Broker.Subs.{
  Subscriber, Subscription, Subs, subs_of, is_in, thing_oids, expected, drop_unexpected,
  subscribe_new, new_of, refreshed, last_or, refresh, refresh_things, refresh_exposed_thing_subs,
  dispose_things, dispose_exposed_thing_subs, dispose_found,
}

-- There is a subscription to the interaction of the Thing.
abbrev pub is_subscribed : ℕ → ℕ → Subscriber → Bool
is_subscribed thing intrc s = contains intrc (subs_of (get thing s.subs))

-- One of the Things has the identity and expects the interaction.
abbrev pub is_expected : InteractionType → ℕ → ℕ → List Thing → Bool
is_expected kind thing intrc [] = false
is_expected kind thing intrc (t ∷ ts) =
    (t.oid == thing && is_in intrc (expected kind t)) || is_expected kind thing intrc ts

-- No two Things are one object.
abbrev pub AreDistinct : List Thing → Type 0
AreDistinct [] = Unit
AreDistinct (t ∷ ts) = (is_in t.oid (thing_oids ts) ≡ false) × AreDistinct ts

contains-drop_unexpected :
    (i : ℕ) (wanted : List ℕ) (d : Subs)
    → contains i (drop_unexpected wanted d) ≡ (contains i d && is_in i wanted)
unfolding contains
contains-drop_unexpected i wanted [] = refl
contains-drop_unexpected i wanted ((k, sub) ∷ d) = elim (Bool-cases (k == i)) [
  | inl same ↦ rw (← (nat_beq_iff k i).0 same) (ground (arith, contains-drop_unexpected k wanted d))
  | inr other ↦ ground (arith, contains-drop_unexpected i wanted d)
]

contains-subscribe_new :
    (i last serial : ℕ) (new : List ℕ) (d : Subs)
    → contains i (subscribe_new last serial new d) ≡ (is_in i new || contains i d)
contains-subscribe_new i last serial [] d = refl
contains-subscribe_new i last serial (j ∷ js) d =
    let sub : Subscription = record { serial = serial; on_error_target = last } in
    ground
      (arith, contains-subscribe_new i last (serial + 1) js (set j sub d), contains-set j i sub d)

is_in-new_of :
    (i : ℕ) (wanted : List ℕ) (d : Subs)
    → is_in i (new_of wanted d) ≡ (is_in i wanted && not (contains i d))
is_in-new_of i [] d = refl
is_in-new_of i (j ∷ js) d = elim (Bool-cases (j == i)) [
  | inl same ↦ rw (← (nat_beq_iff j i).0 same) (ground (arith, is_in-new_of j js d))
  | inr other ↦ ground (arith, is_in-new_of i js d)
]

contains-refreshed :
    (i : ℕ) (wanted : List ℕ) (serial : ℕ) (d : Subs)
    → contains i (refreshed wanted serial d) ≡ is_in i wanted
contains-refreshed i wanted serial d =
    let kept = drop_unexpected wanted d in
    ground (
      arith,
      contains-subscribe_new i (last_or 0 (new_of wanted kept)) serial (new_of wanted kept) kept,
      is_in-new_of i wanted kept,
      contains-drop_unexpected i wanted d,
    )

is_subscribed-refresh_thing :
    (t : Thing) (s : Subscriber) (thing intrc : ℕ)
    → is_subscribed thing intrc (refresh_exposed_thing_subs t s) ≡ (
        if t.oid == thing
        then is_in intrc (expected s.interaction_type t)
        else is_subscribed thing intrc s)
unfolding refresh_exposed_thing_subs
is_subscribed-refresh_thing t s thing intrc =
    let d = subs_of (get t.oid s.subs) in
    let wanted = expected s.interaction_type t in
    ground (
      arith,
      get-set t.oid thing (refreshed wanted s.next_serial d) s.subs,
      contains-refreshed intrc wanted s.next_serial d,
    )

is_expected_absent :
    (kind : InteractionType) (thing intrc : ℕ) (ts : List Thing)
    → is_in thing (thing_oids ts) ≡ false
    → is_expected kind thing intrc ts ≡ false
is_expected_absent kind thing intrc [] h = refl
is_expected_absent kind thing intrc (t ∷ ts) h =
    ground (arith, is_expected_absent kind thing intrc ts)

is_subscribed-refresh_things :
    (ts : List Thing) (s : Subscriber) (thing intrc : ℕ)
    → AreDistinct ts
    → is_subscribed thing intrc (refresh_things ts s) ≡ (
        if is_in thing (thing_oids ts)
        then is_expected s.interaction_type thing intrc ts
        else is_subscribed thing intrc s)
unfolding refresh_exposed_thing_subs
is_subscribed-refresh_things [] s thing intrc d = refl
is_subscribed-refresh_things (t ∷ ts) s thing intrc d =
    let s' = refresh_exposed_thing_subs t s in
    elim (Bool-cases (t.oid == thing)) [
      | inl same ↦
          let absent : is_in thing (thing_oids ts) ≡ false =
            rw (← (nat_beq_iff t.oid thing).0 same) d.0 in
          ground (
            arith,
            is_subscribed-refresh_things ts s' thing intrc d.1,
            is_subscribed-refresh_thing t s thing intrc,
            is_expected_absent s.interaction_type thing intrc ts absent,
          )
      | inr other ↦ ground (
        arith,
        is_subscribed-refresh_things ts s' thing intrc d.1,
        is_subscribed-refresh_thing t s thing intrc,
      )
    ]

get-dispose_thing :
    (t : ℕ) (s : Subscriber) (thing : ℕ)
    → get thing (dispose_exposed_thing_subs t s).subs
      ≡ (if t == thing then none else get thing s.subs)
unfolding dispose_exposed_thing_subs
get-dispose_thing t s thing = go (get t s.subs) refl
  where
    go :
        (o : Option Subs)
        → get t s.subs ≡ o
        → get thing (dispose_found t o s).subs ≡ (if t == thing then none else get thing s.subs)
    go none e = elim (Bool-cases (t == thing)) [
      | inl same ↦ rw same (rw (← (nat_beq_iff t thing).0 same) e)
      | inr other ↦ rw other refl
    ]
    go (some d) e = get-pop t thing s.subs

get-dispose_things :
    (ts : List ℕ) (s : Subscriber) (thing : ℕ)
    → get thing (dispose_things ts s).subs ≡ (if is_in thing ts then none else get thing s.subs)
get-dispose_things [] s thing = refl
get-dispose_things (t ∷ ts) s thing = ground (
  arith,
  get-dispose_things ts (dispose_exposed_thing_subs t s) thing,
  get-dispose_thing t s thing,
)

interaction_type-dispose_things :
    (ts : List ℕ) (s : Subscriber) → (dispose_things ts s).interaction_type ≡ s.interaction_type
unfolding dispose_exposed_thing_subs
interaction_type-dispose_things [] s = refl
interaction_type-dispose_things (t ∷ ts) s =
    interaction_type-dispose_things ts (dispose_exposed_thing_subs t s) ∙ go (get t s.subs)
  where
    go : (o : Option Subs) → (dispose_found t o s).interaction_type ≡ s.interaction_type
    go none = refl
    go (some d) = refl

-- A Thing that is not among the keys has no subscriptions.
get_absent : {V : Type 0} (k : ℕ) (d : Dict ℕ V) → is_in k (keys d) ≡ false → get k d ≡ none
unfolding get
get_absent k [] h = refl
get_absent k ((j, v) ∷ d) h = ground (arith, get_absent k d)

is_in-keep-not :
    (k : ℕ) (xs ys : List ℕ)
    → is_in k (keep (λ x. not (is_in x ys)) xs) ≡ (is_in k xs && not (is_in k ys))
is_in-keep-not k [] ys = refl
is_in-keep-not k (x ∷ xs) ys = elim (Bool-cases (x == k)) [
  | inl same ↦ rw (← (nat_beq_iff x k).0 same) (ground (arith, is_in-keep-not x xs ys))
  | inr other ↦ ground (arith, is_in-keep-not k xs ys)
]

-- For Things that are different objects: whatever was subscribed to before, after a `refresh`
-- there is a subscription to an interaction of a Thing exactly where the server exposes that Thing
-- and the interaction is one to observe: an observable property, or an event.
pub is_subscribed-refresh :
    (things : List Thing) (s : Subscriber) (thing intrc : ℕ)
    → AreDistinct things
    → is_subscribed thing intrc (refresh things s)
      ≡ is_expected s.interaction_type thing intrc things
unfolding refresh contains
is_subscribed-refresh things s thing intrc d =
    let gone = keep (λ t. not (is_in t (thing_oids things))) (keys s.subs) in
    let s' = dispose_things gone s in
    let kind : s'.interaction_type ≡ s.interaction_type = interaction_type-dispose_things gone s in
    elim (Bool-cases (is_in thing (thing_oids things))) [
      | inl there ↦ is_subscribed-refresh_things things s' thing intrc d ∙ rw (there, kind) refl
      | inr absent ↦
          let none_left : get thing s'.subs ≡ none = ground (
            arith,
            get-dispose_things gone s thing,
            get_absent thing s.subs,
            is_in-keep-not thing (keys s.subs) (thing_oids things),
          ) in
          is_subscribed-refresh_things things s' thing intrc d
          ∙ rw (absent, none_left, is_expected_absent s.interaction_type thing intrc things absent)
              refl
    ]
