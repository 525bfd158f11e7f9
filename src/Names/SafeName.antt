-- ===== src/Names/SafeName.antt =====
-- What `is_valid_safe_name` accepts.
use wotpy.Prelude.{
  ℕ, ◌≡◌, refl, Bool, Bool-cases, true, ◌&&◌, ◌⊎◌, inl, inr, [], ◌∷◌, ◌++◌, arith, Text, ◌↔◌,
}
use wotpy.Names.{is_safe_char, safe_rest, is_valid_safe_name}

abbrev pub all_safe : Text → Bool
all_safe [] = true
all_safe (c ∷ s) = is_safe_char c && all_safe s

-- A text of safe characters, or such a text with one newline behind it.
abbrev pub SafeOrNewline : Text → Type 0
SafeOrNewline s = (body : Text) × (all_safe body ≡ true) × ((s ≡ body) ⊎ (s ≡ body ++ 10 ∷ []))

cons-SafeOrNewline :
    (c : ℕ) (s : Text) → is_safe_char c ≡ true → SafeOrNewline s → SafeOrNewline (c ∷ s)
cons-SafeOrNewline c s h (body, safe, inl e) = (c ∷ body, ground arith, inl (ground arith))
cons-SafeOrNewline c s h (body, safe, inr e) = (c ∷ body, ground arith, inr (ground arith))

safe_rest_sound : (s : Text) → safe_rest s ≡ true → SafeOrNewline s
safe_rest_sound [] h = ([], refl, inl refl)
safe_rest_sound (c ∷ []) h = elim (Bool-cases (is_safe_char c)) [
  | inl safe ↦ (c ∷ [], ground arith, inl refl)
  | inr unsafe ↦ ([], refl, inr (ground arith))
]
safe_rest_sound (c ∷ d ∷ s) h =
    cons-SafeOrNewline c (d ∷ s) (ground arith) (safe_rest_sound (d ∷ s) (ground arith))

safe_rest_complete : (s : Text) → all_safe s ≡ true → safe_rest s ≡ true
safe_rest_complete [] h = refl
safe_rest_complete (c ∷ []) h = ground arith
safe_rest_complete (c ∷ d ∷ s) h = ground (arith, safe_rest_complete (d ∷ s))

safe_rest-newline : (s : Text) → all_safe s ≡ true → safe_rest (s ++ 10 ∷ []) ≡ true
unfolding is_safe_char
safe_rest-newline [] h = refl
safe_rest-newline (c ∷ []) h = ground arith
safe_rest-newline (c ∷ d ∷ s) h = ground (arith, safe_rest-newline (d ∷ s))

-- `is_valid_safe_name` accepts exactly the texts that begin with a safe character and go on with
-- safe characters, and those texts with one newline behind them.
pub is_valid_safe_name_iff :
    (c : ℕ) (s : Text)
    → (is_valid_safe_name (c ∷ s) ≡ true) ↔ (is_safe_char c ≡ true) × SafeOrNewline s
unfolding is_valid_safe_name
is_valid_safe_name_iff c s = (
  λ h. (ground arith, safe_rest_sound s (ground arith)),
  λ (h, more).
      let (body, safe, e) = more in
      elim e [
        | inl plain ↦ rw plain (ground (arith, safe_rest_complete body))
        | inr newline ↦ rw newline (ground (arith, safe_rest-newline body))
      ],
)
