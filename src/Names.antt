-- ===== src/Names.antt =====
-- wotpy/utils/utils.py (`to_camel`, `to_snake`) and `is_valid_safe_name` of wotpy/wot/validation.py.
-- Texts are lists of code points; Python's case methods are modelled on their ASCII part, which
-- holds every field name of the source.
pub mod RoundTrip
pub mod SafeName
use wotpy.Prelude.{
  ℕ, ◌+◌, ◌-◌, Bool, true, false, not, ◌&&◌, ◌||◌, List, [], ◌∷◌, ◌++◌, leb, nat_beq, if◌then◌else◌,
  Text, split,
}

-- `c.isupper()`, `c.islower()` of one character
unfoldable pub is_upper : ℕ → Bool
is_upper c = leb b'A' c && leb c b'Z'

unfoldable pub is_lower : ℕ → Bool
is_lower c = leb b'a' c && leb c b'z'

unfoldable pub lower : ℕ → ℕ
unfolding is_upper
lower c = if is_upper c then c + 32 else c

unfoldable pub upper : ℕ → ℕ
unfolding is_lower
upper c = if is_lower c then c - 32 else c

abbrev pub is_alpha : ℕ → Bool
is_alpha c = is_upper c || is_lower c

-- `s.title()`: the first letter of each run of letters goes to upper case, the others to lower
-- case; the flag says that the character before is a letter.
abbrev pub title_from : Bool → Text → Text
title_from after [] = []
title_from after (c ∷ s) = (if after then lower c else upper c) ∷ title_from (is_alpha c) s

abbrev join_titles : List Text → Text
join_titles [] = []
join_titles (p ∷ ps) = title_from false p ++ join_titles ps

-- `"".join(parts[:1] + [item.title() for item in parts[1:]])`
abbrev camel_parts : List Text → Text
camel_parts [] = []
camel_parts (p ∷ ps) = p ++ join_titles ps

unfoldable pub to_camel : Text → Text
to_camel val = camel_parts (split b'_' val)

unfoldable pub to_snake : Text → Text
to_snake [] = []
to_snake (x ∷ val) =
    let rest = to_snake val in if is_upper x then b'_' ∷ lower x ∷ rest else x ∷ rest

-- `[a-zA-Z0-9_-]`
unfoldable pub is_safe_char : ℕ → Bool
unfolding is_upper is_lower
is_safe_char c =
    is_upper c || is_lower c || (leb b'0' c && leb c b'9') || nat_beq c b'_' || nat_beq c b'-'

-- What follows the first character in a match of `^[a-zA-Z0-9_-]+$`. In Python `$` matches at the
-- end and also before a newline at the end.
abbrev pub safe_rest : Text → Bool
safe_rest [] = true
safe_rest (c ∷ []) = is_safe_char c || nat_beq c 10
safe_rest (c ∷ d ∷ s) = is_safe_char c && safe_rest (d ∷ s)

unfoldable pub is_valid_safe_name : Text → Bool
is_valid_safe_name [] = false
is_valid_safe_name (c ∷ s) = is_safe_char c && safe_rest s
