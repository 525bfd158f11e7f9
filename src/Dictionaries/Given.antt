-- ===== src/Dictionaries/Given.antt =====
-- What the constructor keeps of the fields of a dictionary.
use wotpy.Prelude.{
  ◌≡◌, ◌∙◌, refl, sym, ap, Bool, Bool-cases, inl, inr, true, false, ◌||◌, ◌&&◌, some, List, [], ◌∷◌,
  ◌++◌, ◌==◌, text_eq, text_beq_iff, Text, arith, split, nat_beq, ℕ, if◌then◌else◌,
}
use wotpy.Dict
use wotpy.Dict.Laws.{get-set, contains-get, contains-eq_get-none}
use wotpy.Json.{Json}
use wotpy.Names.{to_camel, is_upper, is_lower}
use wotpy.Names.RoundTrip.{is_camel, all_alpha}
use wotpy.Dictionaries.{Init, elem, camel_into}
use wotpy.Dictionaries.Attributes.{AllCamel}

split_step :
    (c : ℕ) (s : Text)
    → nat_beq c b'_' ≡ false
    → split b'_' s ≡ s ∷ []
    → split b'_' (c ∷ s) ≡ (c ∷ s) ∷ []
split_step c s h e = rw (h, e) refl

split_alpha : (s : Text) → all_alpha s ≡ true → split b'_' s ≡ s ∷ []
unfolding is_upper is_lower
split_alpha [] h = refl
split_alpha (c ∷ s) h = split_step c s (ground (arith, h)) (split_alpha s (ground (arith, h)))

split_camel : (s : Text) → is_camel s ≡ true → split b'_' s ≡ s ∷ []
unfolding is_upper is_lower
split_camel [] h = refl
split_camel (c ∷ s) h = elim (Bool-cases (is_upper c)) [
  | inl up ↦ split_step c s (ground (arith, up)) (split_alpha s (ground (arith, h, up)))
  | inr low ↦ split_step c s (ground (arith, h, low)) (split_camel s (ground (arith, h, low)))
]

append_none : (s : Text) → s ++ [] ≡ s
append_none [] = refl
append_none (c ∷ s) = ap (λ r. c ∷ r) (append_none s)

-- A field's name is in camel case already.
to_camel_camel : (s : Text) → is_camel s ≡ true → to_camel s ≡ s
unfolding to_camel
to_camel_camel s h = rw (split_camel s h) (append_none s)

-- The fields of a set that are there, with their values.
abbrev pub given : (Text → Bool) → (Text → Json) → List Text → Init
given there value [] = []
given there value (f ∷ fs) =
    let rest = given there value fs in if there f then (f, value f) ∷ rest else rest

module _ (there : Text → Bool) (value : Text → Json) where
  pub get-camel_into :
      (k : Text) (fs : List Text) (acc : Init)
      → AllCamel fs
      → Dict.get k (camel_into acc (given there value fs))
        ≡ (if elem k fs && there k then some (value k) else Dict.get k acc)
  get-camel_into k [] acc camel = refl
  get-camel_into k (f ∷ fs) acc camel = go (there f) refl (λ acc'. get-camel_into k fs acc' camel.1)
    where
      same :
          there f ≡ true
          → (if elem k fs && there k
              then some (value k)
              else if f == k
              then some (value f)
              else Dict.get k acc)
            ≡ (if (f == k || elem k fs) && there k then some (value k) else Dict.get k acc)
      same e = elim (Bool-cases (f == k)) [
        | inl q ↦ rw (← (text_beq_iff f k).0 q, e, (text_beq_iff f f).1 refl) (ground arith)
        | inr q ↦ rw q refl
      ]

      other :
          there f ≡ false
          → (if elem k fs && there k then some (value k) else Dict.get k acc)
            ≡ (if (f == k || elem k fs) && there k then some (value k) else Dict.get k acc)
      other e = elim (Bool-cases (f == k)) [
        | inl q ↦ rw (← (text_beq_iff f k).0 q, e) (ground arith)
        | inr q ↦ rw q refl
      ]

      go :
          (b : Bool)
          → there f ≡ b
          → ((acc' : Init)
              → Dict.get k (camel_into acc' (given there value fs))
                ≡ (if elem k fs && there k then some (value k) else Dict.get k acc'))
          → Dict.get k (
              camel_into acc
                (if b then (f, value f) ∷ given there value fs else given there value fs))
            ≡ (if (f == k || elem k fs) && there k then some (value k) else Dict.get k acc)
      go true e rest =
          ap (λ g. Dict.get k (camel_into (Dict.set g (value f) acc) (given there value fs)))
            (to_camel_camel f camel.0)
          ∙ rest (Dict.set f (value f) acc)
          ∙ rw (get-set f k (value f) acc) (same e)
      go false e rest = rest acc ∙ other e

  pub contains-camel_into :
      (k : Text) (fs : List Text)
      → AllCamel fs
      → Dict.contains k (camel_into [] (given there value fs)) ≡ (elem k fs && there k)
  unfolding Dict.get
  contains-camel_into k fs camel = elim (Bool-cases (elem k fs && there k)) [
    | inl q ↦
        contains-get k (value k) (camel_into [] (given there value fs))
          (get-camel_into k fs [] camel ∙ rw q refl)
        ∙ sym q
    | inr q ↦
        contains-eq_get-none k (camel_into [] (given there value fs))
          (get-camel_into k fs [] camel ∙ rw q refl)
        ∙ sym q
  ]
