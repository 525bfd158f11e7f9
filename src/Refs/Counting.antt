-- ===== src/Refs/Counting.antt =====
-- The counter is a set of pairs of a connection and a reference.
use wotpy.Prelude.{
  String, ◌≡◌, ◌↔◌, refl, Bool, true, false, not, ◌&&◌, Option, none, some, List, [], ◌∷◌, ◌==◌,
  string_eq, eq_iff, Bool-cases, inl, inr, arith, if◌then◌else◌,
}
use wotpy.Dict
use wotpy.Dict.Laws.{get-set}
use wotpy.Sets.{mem, set_add, set_remove, mem-set_add, mem-set_remove}
use wotpy.Refs.{ConnRefCounter, refs_of, decrease_in, is_empty, increase, decrease, has_any}

-- `ref` holds `conn`.
abbrev pub holds : String → String → ConnRefCounter → Bool
holds conn ref self = mem ref (refs_of (Dict.get conn self))

-- `increase` makes the one pair hold and changes no other.
pub holds-increase :
    (conn ref k r : String) (self : ConnRefCounter)
    → holds k r (increase conn ref self) ≡ (if conn == k && ref == r then true else holds k r self)
unfolding increase
holds-increase conn ref k r self = ground (
  arith,
  get-set conn k (set_add ref (refs_of (Dict.get conn self))) self,
  eq_iff conn k,
  mem-set_add ref r (refs_of (Dict.get conn self)),
)

-- `decrease` makes the one pair hold no longer and changes no other, also where the connection or the
-- reference is not known.
pub holds-decrease :
    (conn ref k r : String) (self : ConnRefCounter)
    → holds k r (decrease conn ref self) ≡ (if conn == k && ref == r then false else holds k r self)
unfolding decrease
holds-decrease conn ref k r self = go (Dict.get conn self) refl
  where
    go :
        (o : Option (List String))
        → Dict.get conn self ≡ o
        → holds k r (decrease_in conn ref o self)
          ≡ (if conn == k && ref == r then false else holds k r self)
    go none e = ground (arith, eq_iff conn k)
    go (some refs) e = ground (
      arith,
      get-set conn k (set_remove ref refs) self,
      eq_iff conn k,
      eq_iff ref r,
      mem-set_remove ref r refs,
    )

head_mem : (refs : List String) → is_empty refs ≡ false → (r : String) × (mem r refs ≡ true)
head_mem [] h = absurd (ground arith)
head_mem (x ∷ xs) h = (x, ground (arith, eq_iff x x))

-- `has_any` says whether some reference holds the connection.
pub has_any_iff :
    (conn : String) (self : ConnRefCounter)
    → (has_any conn self ≡ true) ↔ ((ref : String) × (holds conn ref self ≡ true))
unfolding has_any
has_any_iff conn self = (
  λ h. head_mem (refs_of (Dict.get conn self)) (ground arith),
  λ (ref, h). held (refs_of (Dict.get conn self)) ref h,
)
  where
    held : (refs : List String) (ref : String) → mem ref refs ≡ true → not (is_empty refs) ≡ true
    held [] ref h = ground arith
    held (x ∷ xs) ref h = refl

set_add_filled : (x : String) (xs : List String) → is_empty (set_add x xs) ≡ false
set_add_filled x [] = refl
set_add_filled x (y ∷ ys) = elim (Bool-cases (mem x (y ∷ ys))) [
  | inl old ↦ rw old refl
  | inr fresh ↦ rw fresh refl
]

set_remove_empty :
    (x : String) (xs : List String) → is_empty xs ≡ true → is_empty (set_remove x xs) ≡ true
set_remove_empty x [] h = refl
set_remove_empty x (y ∷ ys) h = absurd (ground arith)

pub has_any-increase :
    (conn ref k : String) (self : ConnRefCounter)
    → has_any k (increase conn ref self) ≡ (if conn == k then true else has_any k self)
unfolding has_any increase
has_any-increase conn ref k self = ground (
  arith,
  get-set conn k (set_add ref (refs_of (Dict.get conn self))) self,
  set_add_filled ref (refs_of (Dict.get conn self)),
)

pub has_any-decrease_other :
    (conn ref k : String) (self : ConnRefCounter)
    → (conn == k) ≡ false
    → has_any k (decrease conn ref self) ≡ has_any k self
unfolding has_any decrease
has_any-decrease_other conn ref k self h = go (Dict.get conn self)
  where
    go :
        (o : Option (List String))
        → not (is_empty (refs_of (Dict.get k (decrease_in conn ref o self))))
          ≡ not (is_empty (refs_of (Dict.get k self)))
    go none = refl
    go (some refs) = ground (arith, get-set conn k (set_remove ref refs) self)

pub has_any-decrease :
    (conn ref : String) (self : ConnRefCounter)
    → has_any conn (decrease conn ref self) ≡ true
    → has_any conn self ≡ true
unfolding has_any decrease
has_any-decrease conn ref self h = go (Dict.get conn self) refl h
  where
    go :
        (o : Option (List String))
        → Dict.get conn self ≡ o
        → not (is_empty (refs_of (Dict.get conn (decrease_in conn ref o self)))) ≡ true
        → not (is_empty (refs_of (Dict.get conn self))) ≡ true
    go none e h = h
    go (some refs) e h = ground (
      arith,
      eq_iff conn conn,
      get-set conn conn (set_remove ref refs) self,
      set_remove_empty ref refs,
    )
