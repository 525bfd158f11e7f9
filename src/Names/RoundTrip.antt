-- ===== src/Names/RoundTrip.antt =====
-- The snake-case attribute of a camel-case field leads back to the field.
use wotpy.Prelude.{
  ℕ, ◌≡◌, refl, Bool, true, false, not, ◌&&◌, List, [], ◌∷◌, ◌++◌, arith, nat_beq, if◌then◌else◌,
  Text, split, push,
}
use wotpy.Names.{
  is_upper, is_lower, lower, upper, is_alpha, title_from, join_titles, camel_parts, to_camel,
  to_snake,
}

abbrev pub all_alpha : Text → Bool
all_alpha [] = true
all_alpha (c ∷ s) = is_alpha c && all_alpha s

-- No underscore, and nothing but letters after the first capital.
abbrev pub is_camel : Text → Bool
is_camel [] = true
is_camel (c ∷ s) = if is_upper c then all_alpha s else not (nat_beq c b'_') && is_camel s

-- The text that the parts of a split stand for, when the first part goes on a word.
abbrev word_parts : List Text → Text
word_parts [] = []
word_parts (p ∷ ps) = title_from true p ++ join_titles ps

module _ (c : ℕ) where
  upper-lower :
      is_upper c ≡ true
      → (upper (lower c) ≡ c) × (is_lower (lower c) ≡ true) × (nat_beq (lower c) b'_' ≡ false)
  unfolding upper lower
  upper-lower h = (ground arith, ground arith, ground arith)

  lower-lower :
      is_upper c ≡ false
      → is_alpha c ≡ true
      → (lower c ≡ c) × (is_lower c ≡ true) × (nat_beq c b'_' ≡ false)
  unfolding lower is_lower
  lower-lower h a = (ground arith, ground arith, ground arith)

  camel_parts-push : (q : List Text) → camel_parts (push c q) ≡ c ∷ camel_parts q
  camel_parts-push [] = refl
  camel_parts-push (p ∷ ps) = refl

  word_parts-push :
      (q : List Text) → is_lower c ≡ true → lower c ≡ c → word_parts (push c q) ≡ c ∷ word_parts q
  word_parts-push [] h e = ground arith
  word_parts-push (p ∷ ps) h e = ground arith

  join_titles-push :
      (q : List Text) → is_lower c ≡ true → join_titles (push c q) ≡ upper c ∷ word_parts q
  join_titles-push [] h = ground arith
  join_titles-push (p ∷ ps) h = ground arith

word_parts-split : (s : Text) → all_alpha s ≡ true → word_parts (split b'_' (to_snake s)) ≡ s
unfolding to_snake
word_parts-split [] h = refl
word_parts-split (c ∷ s) h =
    let q = split b'_' (to_snake s) in
    ground (
      arith,
      word_parts-split s,
      upper-lower c,
      lower-lower c,
      word_parts-push c q,
      join_titles-push (lower c) q,
    )

camel_parts-split : (s : Text) → is_camel s ≡ true → camel_parts (split b'_' (to_snake s)) ≡ s
unfolding to_snake
camel_parts-split [] h = refl
camel_parts-split (c ∷ s) h =
    let q = split b'_' (to_snake s) in
    ground (
      arith,
      word_parts-split s,
      camel_parts-split s,
      upper-lower c,
      camel_parts-push c q,
      join_titles-push (lower c) q,
    )

-- A field name that has no underscore, and nothing but letters after its first capital, is found
-- again from its snake-case attribute.
pub to_camel-to_snake : (name : Text) → is_camel name ≡ true → to_camel (to_snake name) ≡ name
unfolding to_camel
to_camel-to_snake name h = camel_parts-split name h
