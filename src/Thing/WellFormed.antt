-- ===== src/Thing/WellFormed.antt =====
-- The invariant of a Thing, and `add_interaction`.
use wotpy.Prelude.{
  ℕ, String, Bool-cases, inl, inr, ◌≡◌, refl, sym, Bool, true, false, none, some, List, [], ◌∷◌,
  ◌++◌, ◌==◌, string_eq, eq_iff, find?, All, arith, if◌then◌else◌,
}
use mathlib.Core.List.{append_assoc, append-nil}
use wotpy.Outcome.{ok}
use wotpy.Dict
use wotpy.Dict.{Dict, values, contains, pop}
use wotpy.Dict.Laws.{set-new, values-append}
use wotpy.Thing.Defs.{
  InteractionType, property, action, event, Interaction, Thing, interactions, dict_of, with_dict,
  is_match, find_interaction, add_interaction,
}
use wotpy.Thing.Unique.{Apart, Distinct, find?-Apart, Distinct-insert}

-- Each entry stands under its own name, is of the dictionary's kind and is linked to the Thing.
abbrev pub Keyed : InteractionType → ℕ → Dict String Interaction → Type 0
Keyed kind oid = All (λ (k, i). (k ≡ i.name) × (i.kind ≡ kind) × (i.thing ≡ oid))

pub record IsWellFormed (slugify : String → String) (t : Thing) : Type 0 where
  pub properties_Keyed : Keyed property t.oid t.properties
  pub actions_Keyed : Keyed action t.oid t.actions
  pub events_Keyed : Keyed event t.oid t.events
  pub distinct : Distinct slugify (interactions t)

Keyed-append :
    (kind : InteractionType) (oid : ℕ) (d : Dict String Interaction) (i : Interaction)
    → Keyed kind oid d
    → i.kind ≡ kind
    → i.thing ≡ oid
    → Keyed kind oid (d ++ (i.name, i) ∷ [])
Keyed-append kind oid [] i h e f = ((refl, e, f), tt)
Keyed-append kind oid ((k, j) ∷ d) i h e f = (h.0, Keyed-append kind oid d i h.1 e f)

module _ (slugify : String → String) where
  -- A dictionary has no key that finds nothing.
  contains-eq_find_none :
      (kind : InteractionType) (oid : ℕ) (k : String) (d : Dict String Interaction)
      → Keyed kind oid d
      → find? (is_match slugify k) (values d) ≡ none
      → contains k d ≡ false
  unfolding contains
  contains-eq_find_none kind oid k [] h n = refl
  contains-eq_find_none kind oid k ((j, i) ∷ d) h n =
      ground (arith, contains-eq_find_none kind oid k d)

  -- Where the parts of a concatenation find nothing.
  find?-append_parts :
      (p : Interaction → Bool) (xs ys : List Interaction)
      → find? p (xs ++ ys) ≡ none
      → (find? p xs ≡ none) × (find? p ys ≡ none)
  find?-append_parts p [] ys h = (refl, h)
  find?-append_parts p (x ∷ xs) ys h = ground (arith, find?-append_parts p xs ys)

  find?-insert :
      (p : Interaction → Bool) (xs : List Interaction) (y : Interaction) (zs : List Interaction)
      → (p y ≡ true → find? p (xs ++ zs) ≡ none)
      → find? p (xs ++ y ∷ zs) ≡ (if p y then some y else find? p (xs ++ zs))
  find?-insert p [] y zs h = refl
  find?-insert p (x ∷ xs) y zs h = ground (arith, find?-insert p xs y zs)

  -- `u` is `t` with `y` put somewhere among the interactions.
  abbrev pub Inserted : Interaction → Thing → Thing → Type 0
  Inserted y t u =
      (xs : List Interaction) × (zs : List Interaction) × (interactions t ≡ xs ++ zs)
      × (interactions u ≡ xs ++ y ∷ zs)

  abbrev put_new : Interaction → Thing → Thing
  put_new y t = with_dict y.kind (Dict.set y.name y (dict_of y.kind t)) t

  -- The new entry is the last of its dictionary.
  put_kind-Inserted :
      (kind : InteractionType) (y : Interaction) (t : Thing)
      → contains y.name (dict_of kind t) ≡ false
      → Inserted y t (with_dict kind (Dict.set y.name y (dict_of kind t)) t)
  put_kind-Inserted property y t h = (
    values t.properties,
    values t.actions ++ values t.events,
    refl,
    simp (set-new y.name y t.properties h, values-append, append_assoc),
  )
  put_kind-Inserted action y t h = (
    values t.properties ++ values t.actions,
    values t.events,
    sym (append_assoc (values t.properties) (values t.actions) (values t.events)),
    simp (set-new y.name y t.actions h, values-append, append_assoc),
  )
  put_kind-Inserted event y t h = (
    values t.properties ++ (values t.actions ++ values t.events),
    [],
    sym (append-nil _),
    simp (set-new y.name y t.events h, values-append, append_assoc),
  )

  put_kind-Keyed :
      (kind : InteractionType) (y : Interaction) (t : Thing)
      → contains y.name (dict_of kind t) ≡ false
      → Keyed kind t.oid (dict_of kind t)
      → y.kind ≡ kind
      → y.thing ≡ t.oid
      → Keyed kind t.oid (Dict.set y.name y (dict_of kind t))
  put_kind-Keyed kind y t h k e f =
      rw (set-new y.name y (dict_of kind t) h) (Keyed-append kind t.oid (dict_of kind t) y k e f)

  dict_of-Keyed :
      (kind : InteractionType) (t : Thing)
      → IsWellFormed slugify t
      → Keyed kind t.oid (dict_of kind t)
  dict_of-Keyed property t w = w.properties_Keyed
  dict_of-Keyed action t w = w.actions_Keyed
  dict_of-Keyed event t w = w.events_Keyed

  -- What is found nowhere is no key of a dictionary.
  not_key :
      (kind : InteractionType) (k : String) (t : Thing)
      → IsWellFormed slugify t
      → find? (is_match slugify k) (interactions t) ≡ none
      → contains k (dict_of kind t) ≡ false
  not_key property k t w h =
      contains-eq_find_none property t.oid k t.properties w.properties_Keyed
        (find?-append_parts (is_match slugify k) (values t.properties) _ h).0
  not_key action k t w h =
      contains-eq_find_none action t.oid k t.actions w.actions_Keyed
        (find?-append_parts (is_match slugify k) (values t.actions) _
          (find?-append_parts (is_match slugify k) (values t.properties) _ h).1).0
  not_key event k t w h =
      contains-eq_find_none event t.oid k t.events w.events_Keyed
        (find?-append_parts (is_match slugify k) (values t.actions) _
          (find?-append_parts (is_match slugify k) (values t.properties) _ h).1).1

  -- Putting `y` into the dictionary of its kind keeps the other parts of the invariant.
  put_kind-WellFormed :
      (kind : InteractionType) (y : Interaction) (t : Thing)
      → IsWellFormed slugify t
      → y.kind ≡ kind
      → y.thing ≡ t.oid
      → contains y.name (dict_of kind t) ≡ false
      → Distinct slugify (interactions (with_dict kind (Dict.set y.name y (dict_of kind t)) t))
      → IsWellFormed slugify (with_dict kind (Dict.set y.name y (dict_of kind t)) t)
  put_kind-WellFormed property y t w e f h d = record {
    properties_Keyed = put_kind-Keyed property y t h w.properties_Keyed e f;
    actions_Keyed = w.actions_Keyed;
    events_Keyed = w.events_Keyed;
    distinct = d;
  }
  put_kind-WellFormed action y t w e f h d = record {
    properties_Keyed = w.properties_Keyed;
    actions_Keyed = put_kind-Keyed action y t h w.actions_Keyed e f;
    events_Keyed = w.events_Keyed;
    distinct = d;
  }
  put_kind-WellFormed event y t w e f h d = record {
    properties_Keyed = w.properties_Keyed;
    actions_Keyed = w.actions_Keyed;
    events_Keyed = put_kind-Keyed event y t h w.events_Keyed e f;
    distinct = d;
  }

  -- The two look-ups of `add_interaction` found nothing, and the thing is the right one.
  add_accepts :
      (y : Interaction) (t u : Thing)
      → add_interaction slugify y t ≡ ok u
      → (find? (is_match slugify y.name) (interactions t) ≡ none)
        × (find? (is_match slugify (slugify y.name)) (interactions t) ≡ none)
        × (y.thing ≡ t.oid)
        × (u ≡ with_dict y.kind (Dict.set y.name y (dict_of y.kind t)) t)
  unfolding add_interaction find_interaction
  add_accepts y t u h = (ground arith, ground arith, ground arith, ground arith)

  pub add_interaction-Inserted :
      (y : Interaction) (t u : Thing)
      → IsWellFormed slugify t
      → add_interaction slugify y t ≡ ok u
      → Inserted y t u
  add_interaction-Inserted y t u w h =
      let (by_name, by_url, linked, e) = add_accepts y t u h in
      rw e (put_kind-Inserted y.kind y t (not_key y.kind y.name t w by_name))

  -- An accepted `add_interaction` keeps the Thing well formed: each interaction stands under its name in
  -- the table of its kind, and no two can be found by one name or URL name.
  pub add_interaction-IsWellFormed :
      (y : Interaction) (t u : Thing)
      → IsWellFormed slugify t
      → add_interaction slugify y t ≡ ok u
      → IsWellFormed slugify u
  add_interaction-IsWellFormed y t u w h =
      let (by_name, by_url, linked, e) = add_accepts y t u h in
      let free = not_key y.kind y.name t w by_name in
      let (xs, zs, old, new) = put_kind-Inserted y.kind y t free in
      let apart : Apart slugify y (interactions t) =
        find?-Apart slugify y (interactions t) by_name by_url in
      rw e (
        put_kind-WellFormed y.kind y t w refl linked free
          (rw new (Distinct-insert slugify y xs zs (rw old at w.distinct) (rw old at apart))))

  -- A name that matches `y` is one of its two names.
  matched_none :
      (y : Interaction) (l : List Interaction) (name : String)
      → find? (is_match slugify y.name) l ≡ none
      → find? (is_match slugify (slugify y.name)) l ≡ none
      → is_match slugify name y ≡ true
      → find? (is_match slugify name) l ≡ none
  matched_none y l name h k m = elim (Bool-cases (y.name == name)) [
    | inl same ↦ rw (← (eq_iff y.name name).0 same) h
    | inr other ↦ rw (← (eq_iff (slugify y.name) name).0 (ground arith)) k
  ]

  -- After an accepted `add_interaction` on a well-formed Thing the names that match the new interaction find it, and every
  -- other name finds what it found before.
  pub find_interaction-add :
      (y : Interaction) (t u : Thing) (name : String)
      → IsWellFormed slugify t
      → add_interaction slugify y t ≡ ok u
      → find_interaction slugify name u
        ≡ (if is_match slugify name y then some y else find_interaction slugify name t)
  unfolding find_interaction
  find_interaction-add y t u name w h =
      let (by_name, by_url, linked, e) = add_accepts y t u h in
      let (xs, zs, old, new) = add_interaction-Inserted y t u w h in
      rw (old, new)
        (find?-insert (is_match slugify name) xs y zs
          (λ m. rw old at (matched_none y (interactions t) name by_name by_url m)))
