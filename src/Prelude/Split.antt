-- ===== src/Prelude/Split.antt =====
-- `split` reads back the parts that `join` puts together.
use Prim.Native.Nat.{ℕ}
use mathlib.Core.Path.{◌≡◌, refl}
use mathlib.Core.Bool.{true}
use mathlib.Core.List.{List, [], ◌∷◌, ◌++◌}
use native.Mathlib.Omega.{arith}
use wotpy.Prelude.Lists.{All}
use wotpy.Prelude.Chars.{Text, split, join, avoids}

split-avoids : (sep : ℕ) (s : Text) → avoids sep s ≡ true → split sep s ≡ s ∷ []
split-avoids sep [] h = refl
split-avoids sep (c ∷ s) h = ground (arith, split-avoids sep s)

-- The part before a separator is the first one.
split-append :
    (sep : ℕ) (s rest : Text)
    → avoids sep s ≡ true
    → split sep (s ++ sep ∷ rest) ≡ s ∷ split sep rest
split-append sep [] rest h = ground arith
split-append sep (c ∷ s) rest h = ground (arith, split-append sep s rest)

pub split-join :
    (sep : ℕ) (p : Text) (ps : List Text)
    → All (λ q. avoids sep q ≡ true) (p ∷ ps)
    → split sep (join sep (p ∷ ps)) ≡ p ∷ ps
split-join sep p [] h = split-avoids sep p h.0
split-join sep p (q ∷ ps) h =
    rw (split-append sep p (join sep (q ∷ ps)) h.0, split-join sep q ps h.1) refl
