-- ===== src/Thing/Unique.antt =====
-- No two interactions of a Thing can be found by one name, and every operation keeps it so.
use wotpy.Prelude.{
  String, ◌≡◌, Bool, false, ◌||◌, none, List, [], ◌∷◌, ◌++◌, string_eq, eq_iff, find?, keep, All,
  arith,
}
use wotpy.Thing.Defs.{Interaction, is_match}

module _ (slugify : String → String) where
  -- `x` can be found by a name or URL-safe name of `y`.
  abbrev pub clashes : Interaction → Interaction → Bool
  clashes y x = is_match slugify y.name x || is_match slugify (slugify y.name) x

  abbrev pub Apart : Interaction → List Interaction → Type 0
  Apart y = All (λ x. clashes y x ≡ false)

  abbrev pub Distinct : List Interaction → Type 0
  Distinct [] = Unit
  Distinct (x ∷ xs) = Apart x xs × Distinct xs

  clashes_symm : (x y : Interaction) → clashes x y ≡ false → clashes y x ≡ false
  clashes_symm x y h = ground (
    arith,
    eq_iff x.name y.name,
    eq_iff y.name x.name,
    eq_iff (slugify x.name) y.name,
    eq_iff y.name (slugify x.name),
    eq_iff x.name (slugify y.name),
    eq_iff (slugify y.name) x.name,
    eq_iff (slugify x.name) (slugify y.name),
    eq_iff (slugify y.name) (slugify x.name),
  )

  pub Apart-append :
      (y : Interaction) (xs zs : List Interaction) → Apart y xs → Apart y zs → Apart y (xs ++ zs)
  Apart-append y [] zs h k = k
  Apart-append y (x ∷ xs) zs h k = (h.0, Apart-append y xs zs h.1 k)

  Apart-left : (y : Interaction) (xs zs : List Interaction) → Apart y (xs ++ zs) → Apart y xs
  Apart-left y [] zs h = tt
  Apart-left y (x ∷ xs) zs h = (h.0, Apart-left y xs zs h.1)

  Apart-right : (y : Interaction) (xs zs : List Interaction) → Apart y (xs ++ zs) → Apart y zs
  Apart-right y [] zs h = h
  Apart-right y (x ∷ xs) zs h = Apart-right y xs zs h.1

  -- What is found by neither name clashes with nothing.
  pub find?-Apart :
      (y : Interaction) (xs : List Interaction)
      → find? (is_match slugify y.name) xs ≡ none
      → find? (is_match slugify (slugify y.name)) xs ≡ none
      → Apart y xs
  find?-Apart y [] h k = tt
  find?-Apart y (x ∷ xs) h k = (ground arith, find?-Apart y xs (ground arith) (ground arith))

  pub Distinct-insert :
      (y : Interaction) (xs zs : List Interaction)
      → Distinct (xs ++ zs)
      → Apart y (xs ++ zs)
      → Distinct (xs ++ y ∷ zs)
  Distinct-insert y [] zs d h = (h, d)
  Distinct-insert y (x ∷ xs) zs d h = (
    Apart-append x xs (y ∷ zs) (Apart-left x xs zs d.0)
        (clashes_symm y x h.0, Apart-right x xs zs d.0),
    Distinct-insert y xs zs d.1 h.1,
  )

  Apart-keep :
      (p : Interaction → Bool) (y : Interaction) (xs : List Interaction)
      → Apart y xs
      → Apart y (keep p xs)
  Apart-keep p y [] h = tt
  Apart-keep p y (x ∷ xs) h = ground (arith, Apart-keep p y xs)

  pub Distinct-keep :
      (p : Interaction → Bool) (xs : List Interaction) → Distinct xs → Distinct (keep p xs)
  Distinct-keep p [] d = tt
  Distinct-keep p (x ∷ xs) d = ground (arith, Apart-keep p x xs, Distinct-keep p xs)
