-- ===== src/Prelude/Strip.antt =====
-- Python's methods of texts: `startswith`, `lstrip`, `rstrip`, `replace` with the empty text, and
-- `split` with a limit of one.
use Prim.Native.Nat.{ℕ, zero, suc, ◌-◌}
use mathlib.Core.Bool.{Bool, true, false, ◌&&◌}
use mathlib.Core.Option.{Option, none, some}
use mathlib.Core.List.{[], ◌∷◌}
use wotpy.Prelude.Tests.{if◌then◌else◌, nat_beq}
use wotpy.Prelude.Lists.{length}
use wotpy.Prelude.Chars.{Text, text_beq}

-- `s.startswith(prefix)`
abbrev pub starts_with : Text → Text → Bool
starts_with [] s = true
starts_with (c ∷ t) [] = false
starts_with (c ∷ t) (d ∷ s) = nat_beq c d && starts_with t s

-- `s.lstrip(c)`, `s.rstrip(c)` of one character
abbrev pub lstrip : ℕ → Text → Text
lstrip c [] = []
lstrip c (d ∷ s) = let rest = lstrip c s in if nat_beq d c then rest else d ∷ s

abbrev pub rstrip : ℕ → Text → Text
rstrip c [] = []
rstrip c (d ∷ s) = let rest = rstrip c s in if nat_beq d c && text_beq rest [] then [] else d ∷ rest

-- `s.replace(part, "")` for a part that is not empty. The number counts
-- the characters of a match that are still to be left out.
abbrev pub remove_from : Text → ℕ → Text → Text
remove_from part n [] = []
remove_from part (suc n) (c ∷ s) = remove_from part n s
remove_from part zero (c ∷ s) =
    let kept = remove_from part zero s in
    let removed = remove_from part (length part - 1) s in
    if starts_with part (c ∷ s) then removed else c ∷ kept

abbrev pub remove_all : Text → Text → Text
remove_all part s = remove_from part zero s

-- `s.split(c, 1)` as the text before the first `c` and the text behind it, if there is one
abbrev pub with_first : ℕ → Option (Text × Text) → Option (Text × Text)
with_first c none = none
with_first c (some (a, b)) = some (c ∷ a, b)

abbrev pub split_once : ℕ → Text → Option (Text × Text)
split_once sep [] = none
split_once sep (c ∷ s) =
    let rest = split_once sep s in if nat_beq c sep then some ([], s) else with_first c rest
