-- ===== src/Servient/Exposes.antt =====
-- Which titles a server exposes, sets of titles, and the loop over the servers.
use wotpy.Prelude.{String, ◌≡◌, refl, true, some, List, [], ◌∷◌, nat_eq, string_eq, All, arith}
use wotpy.Outcome.{Outcome, ok, raised, is_ok}
pub use wotpy.Sets.{mem-set_add, mem-set_remove}
use wotpy.Dict
use wotpy.Dict.{Dict, values, pop}
use wotpy.ThingSet.{ExposedRef, find_by_thing_title}
use wotpy.ThingSet.Lookup.{IsKeyed}
use wotpy.Servient.Forms.{Server, visit, visit_rest}
use wotpy.Servient.Defs.{Servient, mem}

-- A loop that ends well has ended well for each value.
module _ {K A W : Type 0} (P Q : A → Type 0) (body : A → W → Outcome (Unit {0}) × (A × W))
    (step : (a : A) (w : W) → P a → is_ok (body a w).0 ≡ true → Q (body a w).1.0) where
  pub visit-All :
      (d : Dict K A) (w : W)
      → All (λ (k, a). P a) d
      → is_ok (visit body d w).0 ≡ true
      → All (λ (k, a). Q a) (visit body d w).1.0
  visit-All [] w h done = tt
  visit-All ((k, a) ∷ d) w h done = go (body a w) (step a w h.0) (λ w'. visit-All d w' h.1) done
    where
      go :
          (r : Outcome (Unit {0}) × (A × W))
          → (is_ok r.0 ≡ true → Q r.1.0)
          → ((w : W) → is_ok (visit body d w).0 ≡ true → All (λ (k, a). Q a) (visit body d w).1.0)
          → is_ok (visit_rest k d r (visit body d)).0 ≡ true
          → All (λ (k, a). Q a) (visit_rest k d r (visit body d)).1.0
      go (ok _, (a', w')) q more fin = (q refl, more w' fin)
      go (raised e, (a', w')) q more fin = absurd (ground arith)

-- A server exposes the titles of the list, each Thing under its title.
pub record Exposes (titles : List String) (server : Server) : Type 0 where
  pub keyed : IsKeyed server.exposed_thing_set
  pub exposed : (t : String) → Dict.contains t server.exposed_thing_set ≡ mem t titles

abbrev pub InSync : Servient → Type 0
InSync s = All (λ (k, server). Exposes s.enabled_titles server) s.servers

-- Where the title finds an element, that element has the title: no URL name is in the way.
abbrev pub IsPlain : (String → String) → String → Server → Type 0
IsPlain slugify title server =
    (y : ExposedRef)
    → find_by_thing_title slugify title server.exposed_thing_set ≡ some y
    → y.title ≡ title
