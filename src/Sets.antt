-- ===== src/Sets.antt =====
-- Python's `set` of strings, as a list of its members.
use wotpy.Prelude.{
  String, ◌≡◌, Bool, Bool-cases, true, false, not, List, [], ◌∷◌, ◌++◌, ◌==◌, string_eq, eq_iff,
  inl, inr, any, keep, arith, if◌then◌else◌,
}

-- `x in s`
abbrev pub mem : String → List String → Bool
mem x = any (λ y. y == x)

-- `s.add(x)`
abbrev pub set_add : String → List String → List String
set_add x xs = if mem x xs then xs else xs ++ x ∷ []

-- `s.remove(x)`, for a member
abbrev pub set_remove : String → List String → List String
set_remove x xs = keep (λ y. not (y == x)) xs

pub mem-set_add :
    (x t : String) (xs : List String) → mem t (set_add x xs) ≡ (if x == t then true else mem t xs)
mem-set_add x t xs = elim (Bool-cases (mem x xs)) [
  | inl old ↦ rw old (ground (arith, eq_iff x t, mem_subst xs))
  | inr new ↦ rw new (snoc xs)
]
  where
    mem_subst : (ys : List String) → mem x ys ≡ true → (x == t) ≡ true → mem t ys ≡ true
    mem_subst ys h e = rw (← (eq_iff x t).0 e) h

    snoc : (ys : List String) → mem t (ys ++ x ∷ []) ≡ (if x == t then true else mem t ys)
    snoc [] = ground arith
    snoc (y ∷ ys) = ground (arith, snoc ys)

pub mem-set_remove :
    (x t : String) (xs : List String)
    → mem t (set_remove x xs) ≡ (if x == t then false else mem t xs)
mem-set_remove x t [] = ground arith
mem-set_remove x t (y ∷ ys) =
    ground (arith, mem-set_remove x t ys, eq_iff y x, eq_iff y t, eq_iff x t)
