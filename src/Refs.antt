-- ===== src/Refs.antt =====
-- wotpy/protocols/refs.py: the references to shared connections.
pub mod Counting
use wotpy.Prelude.{
  ℕ, String, Bool, true, false, not, ◌&&◌, Option, none, some, List, [], ◌∷◌, ◌==◌, string_eq,
  if◌then◌else◌,
}
use wotpy.Dict
use wotpy.Dict.{Dict}
use wotpy.Sets.{mem, set_add, set_remove}

-- The references of each connection.
abbrev pub ConnRefCounter : Type 0
ConnRefCounter = Dict String (List String)

abbrev pub refs_of : Option (List String) → List String
refs_of none = []
refs_of (some refs) = refs

-- A connection that is not known yet begins with the empty set.
unfoldable pub increase : String → String → ConnRefCounter → ConnRefCounter
increase conn_id ref_id self =
    Dict.set conn_id (set_add ref_id (refs_of (Dict.get conn_id self))) self

abbrev pub decrease_in : String → String → Option (List String) → ConnRefCounter → ConnRefCounter
decrease_in conn_id ref_id none self = self
decrease_in conn_id ref_id (some refs) self =
    if mem ref_id refs then Dict.set conn_id (set_remove ref_id refs) self else self

-- An unknown connection or reference is only logged.
unfoldable pub decrease : String → String → ConnRefCounter → ConnRefCounter
decrease conn_id ref_id self = decrease_in conn_id ref_id (Dict.get conn_id self) self

abbrev pub is_empty : List String → Bool
is_empty [] = true
is_empty (x ∷ xs) = false

unfoldable pub has_any : String → ConnRefCounter → Bool
has_any conn_id self = not (is_empty (refs_of (Dict.get conn_id self)))
