-- ===== src/Consumed/Objects.antt =====
-- The objects for the properties of a consumed Thing.
use wotpy.Prelude.{
  ℕ, String, ◌≡◌, refl, false, Option, some, List, [], ◌∷◌, ◌++◌, ◌==◌, string_eq, eq_iff, find?,
  All,
}
use wotpy.Outcome.{ok}
use wotpy.Dict.{Dict}
use wotpy.Json.{Json}
use wotpy.Consumed.{
  Kwargs, ProtocolClient, ConsumedThing, kwargs_for, consumed_normalized, consumed_item,
  consumed_write_property, consumed_read_property, consumed_property_write, consumed_property_read,
}

-- The law of a client for a value and two sets of keyword arguments: what it writes, it reads back as another.
pub record ReadsBack {S : Type 0} (client : ProtocolClient S) (name : String) (v v' : Json) (s : S)
    (kwargs kwargs' : Kwargs) : Type 0 where
  pub writes : (timeout : Option ℕ) → (client.write_property name v timeout kwargs s).0 ≡ ok tt
  pub reads :
      (timeout timeout' : Option ℕ)
      → (client.read_property name timeout' kwargs'
          (client.write_property name v timeout kwargs s).1).0
        ≡ ok v'

module _ (slugify : String → String) where
  -- The names before have other URL names.
  abbrev pub AreApart : String → List String → Type 0
  AreApart key = All (λ k. (slugify k == slugify key) ≡ false)

  first_key :
      (xs ys : List String) (key : String)
      → AreApart key xs
      → find? (λ k. slugify k == slugify key) (xs ++ key ∷ ys) ≡ some key
  first_key [] ys key h = rw ((eq_iff (slugify key) (slugify key)).1 refl) refl
  first_key (x ∷ xs) ys key h = rw h.0 (first_key xs ys key h.1)

  found_key :
      (xs ys : List String) (key name : String)
      → AreApart key xs
      → slugify name ≡ slugify key
      → find? (λ k. slugify k == slugify name) (xs ++ key ∷ ys) ≡ some key
  found_key xs ys key name h e = rw e (first_key xs ys key h)

  -- An object that is built from any name with the URL name of a property writes a value, and one built
  -- from any other such name reads it back, where no property before has that URL name and the
  -- client that is selected for the property keeps the law.
  pub consumed_property_read-consumed_property_write :
      {S : Type 0} (thing : ConsumedThing S) (client : ProtocolClient S) (xs ys : List String)
      (key name other : String) (v v' : Json) (s : S) (timeout timeout' : Option ℕ)
      (kwargs kwargs' : Option (Dict String Kwargs))
      → thing.properties ≡ xs ++ key ∷ ys
      → AreApart key xs
      → slugify name ≡ slugify key
      → slugify other ≡ slugify key
      → thing.select key ≡ ok client
      → ReadsBack client key v v' s
          (kwargs_for kwargs client.protocol)
          (kwargs_for kwargs' client.protocol)
      → let (sent, s') = consumed_property_write thing slugify name v timeout kwargs s in
        (sent ≡ ok tt)
        × ((consumed_property_read thing slugify other timeout' kwargs' s').0 ≡ ok v')
  unfolding consumed_property_write consumed_property_read consumed_write_property
      consumed_read_property consumed_item consumed_normalized
  consumed_property_read-consumed_property_write thing client xs ys key name other v v' s timeout
        timeout' kwargs kwargs' props apart same same' selected law =
      rw
        (
          props,
          found_key xs ys key name apart same,
          found_key xs ys key other apart same',
          selected,
        )
        (law.writes timeout, law.reads timeout timeout')
