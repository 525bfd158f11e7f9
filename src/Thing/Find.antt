-- ===== src/Thing/Find.antt =====
-- `remove_interaction`, and what is found by name in a well-formed Thing.
use wotpy.Prelude.{
  ℕ, String, Bool-cases, inl, inr, ◌≡◌, refl, Bool, true, false, not, Option, none, some, List, [],
  ◌∷◌, ◌++◌, ◌==◌, string_eq, eq_iff, find?, keep, arith, if◌then◌else◌,
}
use mathlib.Core.Path.{subst}
use wotpy.Dict.{Dict, values, pop}
use wotpy.Thing.Defs.{
  InteractionType, property, action, event, Interaction, Thing, interactions, is_match,
  find_interaction, remove_interaction,
}
use wotpy.Thing.Unique.{clashes, Apart, Distinct, Distinct-keep}
use wotpy.Thing.WellFormed.{Keyed, IsWellFormed}

-- Not named `k`.
abbrev pub other_than : String → Interaction → Bool
other_than k i = not (i.name == k)

values-pop :
    (kind : InteractionType) (oid : ℕ) (k : String) (d : Dict String Interaction)
    → Keyed kind oid d
    → values (pop k d) ≡ keep (other_than k) (values d)
unfolding pop
values-pop kind oid k [] h = refl
values-pop kind oid k ((j, i) ∷ d) h = ground (arith, values-pop kind oid k d)

pop-Keyed :
    (kind : InteractionType) (oid : ℕ) (k : String) (d : Dict String Interaction)
    → Keyed kind oid d
    → Keyed kind oid (pop k d)
unfolding pop
pop-Keyed kind oid k [] h = tt
pop-Keyed kind oid k ((j, i) ∷ d) h = ground (arith, pop-Keyed kind oid k d)

keep-append {ℓ} :
    {A : Type ℓ} (p : A → Bool) (xs ys : List A) → keep p (xs ++ ys) ≡ keep p xs ++ keep p ys
keep-append p [] ys = refl
keep-append p (x ∷ xs) ys = ground (arith, keep-append p xs ys)

module _ (slugify : String → String) where
  -- Among distinct interactions a name finds the one that it matches.
  Apart-find :
      (y x : Interaction) (xs : List Interaction) (p : Interaction → Bool)
      → Apart slugify y xs
      → find? p xs ≡ some x
      → clashes slugify y x ≡ false
  Apart-find y x [] p h f = ground arith
  Apart-find y x (z ∷ xs) p h f = ground (arith, Apart-find y x xs p)

  Apart-none :
      (y : Interaction) (xs : List Interaction) (name : String)
      → Apart slugify y xs
      → is_match slugify name y ≡ true
      → find? (is_match slugify name) xs ≡ none
  Apart-none y [] name h m = refl
  Apart-none y (x ∷ xs) name h m =
      ground (arith, Apart-none y xs name, eq_iff y.name name, eq_iff (slugify y.name) name)

  Apart-other_than :
      (y : Interaction) (xs : List Interaction)
      → Apart slugify y xs
      → keep (other_than y.name) xs ≡ xs
  Apart-other_than y [] h = refl
  Apart-other_than y (x ∷ xs) h = ground (arith, Apart-other_than y xs)

  -- Two interactions that match one name clash.
  clashes_of_match :
      (x y : Interaction) (name : String)
      → is_match slugify name x ≡ true
      → is_match slugify name y ≡ true
      → clashes slugify x y ≡ true
  clashes_of_match x y name h k = ground (
    arith,
    eq_iff x.name name,
    eq_iff (slugify x.name) name,
    eq_iff y.name name,
    eq_iff (slugify y.name) name,
    eq_iff y.name x.name,
    eq_iff (slugify y.name) x.name,
    eq_iff y.name (slugify x.name),
    eq_iff (slugify y.name) (slugify x.name),
  )

  name_ne_of_apart : (x y : Interaction) → clashes slugify x y ≡ false → (x.name == y.name) ≡ false
  name_ne_of_apart x y h = ground (arith, eq_iff x.name y.name, eq_iff y.name x.name)

  find?-keep_head :
      (x : Interaction) (xs : List Interaction) (other : String)
      → Apart slugify x xs
      → find? (is_match slugify other) (keep (other_than x.name) (x ∷ xs))
        ≡ (if is_match slugify other x then none else find? (is_match slugify other) (x ∷ xs))
  find?-keep_head x xs other h =
      ground (arith, Apart-other_than x xs, Apart-none x xs other, eq_iff x.name x.name)

  find?-keep_tail :
      (y x : Interaction) (xs : List Interaction) (other : String)
      → clashes slugify x y ≡ false
      → find? (is_match slugify other) (keep (other_than y.name) xs)
        ≡ (if is_match slugify other y then none else find? (is_match slugify other) xs)
      → find? (is_match slugify other) (keep (other_than y.name) (x ∷ xs))
        ≡ (if is_match slugify other y then none else find? (is_match slugify other) (x ∷ xs))
  find?-keep_tail y x xs other c ih =
      ground (arith, clashes_of_match x y other, name_ne_of_apart x y)

  -- Without the interaction that `name` finds, the names that match it find nothing.
  find?-keep :
      (y : Interaction) (xs : List Interaction) (name other : String)
      → Distinct slugify xs
      → find? (is_match slugify name) xs ≡ some y
      → find? (is_match slugify other) (keep (other_than y.name) xs)
        ≡ (if is_match slugify other y then none else find? (is_match slugify other) xs)
  find?-keep y [] name other d f = ground arith
  find?-keep y (x ∷ xs) name other d f = elim (Bool-cases (is_match slugify name x)) [
    | inl here ↦
        let e : x ≡ y = ground arith in
        subst
          (λ z.
            find? (is_match slugify other) (keep (other_than z.name) (x ∷ xs))
            ≡ (if is_match slugify other z then none else find? (is_match slugify other) (x ∷ xs)))
          e (find?-keep_head x xs other d.0)
    | inr later ↦
        let f' : find? (is_match slugify name) xs ≡ some y = ground arith in
        find?-keep_tail y x xs other (Apart-find x y xs (is_match slugify name) d.0 f')
          (find?-keep y xs name other d.1 f')
  ]

  interactions-remove :
      (t : Thing) (y : Interaction) (name : String)
      → IsWellFormed slugify t
      → find_interaction slugify name t ≡ some y
      → interactions (remove_interaction slugify name t) ≡ keep (other_than y.name) (interactions t)
  unfolding remove_interaction
  interactions-remove t y name w f =
      rw (f, remove_interaction)
        (simp (
          values-pop property t.oid y.name t.properties w.properties_Keyed,
          values-pop action t.oid y.name t.actions w.actions_Keyed,
          values-pop event t.oid y.name t.events w.events_Keyed,
          keep-append,
        ))

  remove-IsWellFormed-some :
      (t : Thing) (y : Interaction) (name : String)
      → IsWellFormed slugify t
      → find_interaction slugify name t ≡ some y
      → IsWellFormed slugify (remove_interaction slugify name t)
  unfolding remove_interaction
  remove-IsWellFormed-some t y name w f = record {
    properties_Keyed =
        rw (f, remove_interaction)
          (pop-Keyed property t.oid y.name t.properties w.properties_Keyed);
    actions_Keyed =
        rw (f, remove_interaction) (pop-Keyed action t.oid y.name t.actions w.actions_Keyed);
    events_Keyed =
        rw (f, remove_interaction) (pop-Keyed event t.oid y.name t.events w.events_Keyed);
    distinct =
        rw (interactions-remove t y name w f)
          (Distinct-keep slugify (other_than y.name) (interactions t) w.distinct);
  }

  -- `remove_interaction` keeps a well-formed Thing well formed.
  pub remove_interaction-IsWellFormed :
      (t : Thing) (name : String)
      → IsWellFormed slugify t
      → IsWellFormed slugify (remove_interaction slugify name t)
  unfolding remove_interaction
  remove_interaction-IsWellFormed t name w = go (find_interaction slugify name t) refl
    where
      go :
          (o : Option Interaction)
          → find_interaction slugify name t ≡ o
          → IsWellFormed slugify (remove_interaction slugify name t)
      go none e = rw (e, remove_interaction) w
      go (some y) e = remove-IsWellFormed-some t y name w e

  -- On a well-formed Thing `remove_interaction` of a name that finds an interaction removes what the name finds, and nothing else: afterwards the names that
  -- match the removed interaction find nothing, and every other name finds what it found before.
  pub find_interaction-remove :
      (t : Thing) (y : Interaction) (name other : String)
      → IsWellFormed slugify t
      → find_interaction slugify name t ≡ some y
      → find_interaction slugify other (remove_interaction slugify name t)
        ≡ (if is_match slugify other y then none else find_interaction slugify other t)
  unfolding find_interaction
  find_interaction-remove t y name other w f =
      rw (interactions-remove t y name w f) (find?-keep y (interactions t) name other w.distinct f)

  -- What `other` finds when the interaction that was found first is gone
  abbrev pub find_without : String → Option Interaction → Option Interaction → Option Interaction
  find_without other none found = found
  find_without other (some y) found = if is_match slugify other y then none else found

  -- `remove_interaction` of any name on a well-formed Thing keeps it well formed and removes exactly
  -- what the name finds: afterwards the names and URL names of that interaction find nothing, and
  -- every other name finds what it found before. A name that finds nothing changes nothing.
  pub remove_interaction_lem :
      (t : Thing) (name other : String)
      → IsWellFormed slugify t
      → IsWellFormed slugify (remove_interaction slugify name t)
        × (find_interaction slugify other (remove_interaction slugify name t)
            ≡ find_without other
                (find_interaction slugify name t)
                (find_interaction slugify other t))
        × (interactions (remove_interaction slugify name t)
            ≡ (elim (find_interaction slugify name t) [
              | none ↦ interactions t
              | some y ↦ keep (other_than y.name) (interactions t)
            ]))
  unfolding remove_interaction
  remove_interaction_lem t name other w = (
    remove_interaction-IsWellFormed t name w,
    found (find_interaction slugify name t) refl,
    left (find_interaction slugify name t) refl,
  )
    where
      found :
          (o : Option Interaction)
          → find_interaction slugify name t ≡ o
          → find_interaction slugify other (remove_interaction slugify name t)
            ≡ find_without other o (find_interaction slugify other t)
      found none e = rw (e, remove_interaction) refl
      found (some y) e = find_interaction-remove t y name other w e

      left :
          (o : Option Interaction)
          → find_interaction slugify name t ≡ o
          → interactions (remove_interaction slugify name t) ≡ (elim o [
            | none ↦ interactions t
            | some y ↦ keep (other_than y.name) (interactions t)
          ])
      left none e = rw (e, remove_interaction) refl
      left (some y) e = interactions-remove t y name w e
