-- ===== src/ThingSet/Lookup.antt =====
-- What a set finds after `add` and `remove`.
use wotpy.Prelude.{
  String, ◌≡◌, ◌≢◌, ◌∙◌, refl, Bool, true, Option, none, some, List, [], ◌∷◌, ◌++◌, ◌==◌, string_eq,
  eq_iff, All, find?, arith, if◌then◌else◌,
}
use wotpy.Outcome.{Outcome, ok, raised, value_error}
use wotpy.Dict
use wotpy.Dict.{Dict, values, pop}
use wotpy.Dict.Laws.{set-new, values-append, contains-set, contains-pop}
use wotpy.ThingSet.{ExposedRef, ThingSet, is_match, find_by_thing_title, add, remove, remove_found}

abbrev pub or_else : Option ExposedRef → Option ExposedRef → Option ExposedRef
or_else none o = o
or_else (some x) o = some x

-- Each element stands under its title.
abbrev pub IsKeyed : ThingSet → Type 0
IsKeyed = All (λ (k, x). k ≡ x.title)

IsKeyed-snoc : (s : ThingSet) (x : ExposedRef) → IsKeyed s → IsKeyed (s ++ (x.title, x) ∷ [])
IsKeyed-snoc [] x h = (refl, tt)
IsKeyed-snoc ((k, y) ∷ s) x h = (h.0, IsKeyed-snoc s x h.1)

pub IsKeyed-pop : (k : String) (s : ThingSet) → IsKeyed s → IsKeyed (pop k s)
unfolding pop
IsKeyed-pop k [] h = tt
IsKeyed-pop k ((j, y) ∷ s) h = ground (arith, IsKeyed-pop k s)

add-eq_append : (x : ExposedRef) (s u : ThingSet) → add x s ≡ ok u → u ≡ s ++ (x.title, x) ∷ []
unfolding add
add-eq_append x s u h = ground (arith, set-new x.title x s)

pub add-IsKeyed : (x : ExposedRef) (s u : ThingSet) → IsKeyed s → add x s ≡ ok u → IsKeyed u
add-IsKeyed x s u k h = rw (add-eq_append x s u h) (IsKeyed-snoc s x k)

pub contains-add :
    (x : ExposedRef) (t : String) (s u : ThingSet)
    → add x s ≡ ok u
    → Dict.contains t u ≡ (if x.title == t then true else Dict.contains t s)
unfolding add
contains-add x t s u h = ground (arith, contains-set x.title t x s)

module _ (slugify : String → String) where
  find?-snoc :
      (p : ExposedRef → Bool) (xs : List ExposedRef) (x : ExposedRef)
      → find? p (xs ++ x ∷ []) ≡ or_else (find? p xs) (if p x then some x else none)
  find?-snoc p [] x = refl
  find?-snoc p (y ∷ xs) x = ground (arith, find?-snoc p xs x)

  -- After an accepted `add` a name finds what it found before, and else the new element, if its title
  -- or its URL name matches.
  pub find_by_thing_title-add :
      (x : ExposedRef) (s u : ThingSet) (name : String)
      → add x s ≡ ok u
      → find_by_thing_title slugify name u
        ≡ or_else
            (find_by_thing_title slugify name s)
            (if is_match slugify name x then some x else none)
  unfolding find_by_thing_title
  find_by_thing_title-add x s u name h =
      rw (add-eq_append x s u h)
        (simp values-append (find?-snoc (is_match slugify name) (values s) x))

  -- What is found has a title under which the dictionary has an entry.
  find-contains :
      (x : ExposedRef) (s : ThingSet) (p : ExposedRef → Bool)
      → IsKeyed s
      → find? p (values s) ≡ some x
      → Dict.contains x.title s ≡ true
  unfolding Dict.contains
  find-contains x [] p k h = ground arith
  find-contains x ((j, y) ∷ s) p k h = ground (arith, find-contains x s p, eq_iff j x.title)

  abbrev pub removed : Option ExposedRef → ThingSet → Outcome ThingSet
  removed none s = raised (value_error "Unknown Exposed Thing")
  removed (some x) s = ok (pop x.title s)

  -- In a set whose elements stand under their titles `remove` fails exactly where the name finds nothing, and else takes out the entry of the element
  -- that the name finds first: the second guard never fires.
  pub remove_lem :
      (name : String) (s : ThingSet)
      → IsKeyed s
      → remove slugify name s ≡ removed (find_by_thing_title slugify name s) s
  unfolding remove find_by_thing_title
  remove_lem name s k = go (find? (is_match slugify name) (values s)) refl
    where
      go :
          (o : Option ExposedRef)
          → find? (is_match slugify name) (values s) ≡ o
          → remove_found slugify o s ≡ removed o s
      go none e = refl
      go (some x) e = ground (arith, find-contains x s (is_match slugify name) k e)

  contains-added :
      (y : ExposedRef) (s u : ThingSet) → add y s ≡ ok u → Dict.contains y.title u ≡ true
  unfolding add
  contains-added y s u h = ground (arith, contains-set y.title y.title y s, eq_iff y.title y.title)

  -- A Thing whose URL name is the title of another one hides it: with both in a set, that title
  -- finds the first Thing, and `remove` of the title takes the first Thing out and leaves the other.
  pub find_by_thing_title_hides :
      (x y : ExposedRef) (s u : ThingSet)
      → IsKeyed s
      → slugify x.title ≡ y.title
      → x.title ≢ y.title
      → find_by_thing_title slugify y.title s ≡ some x
      → add y s ≡ ok u
      → (find_by_thing_title slugify y.title u ≡ some x)
        × (remove slugify y.title u ≡ ok (pop x.title u))
        × (Dict.contains y.title (pop x.title u) ≡ true)
  find_by_thing_title_hides x y s u k same other found h =
      let still : find_by_thing_title slugify y.title u ≡ some x =
        find_by_thing_title-add y s u y.title h ∙ rw found in
      (
        still,
        rw (remove_lem y.title u (add-IsKeyed y s u k h), still),
        rw contains-pop (ground (arith, eq_iff x.title y.title, contains-added y s u h)),
      )
