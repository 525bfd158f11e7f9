-- ===== src/Dictionaries/Attributes.antt =====
-- What `to_dict` gives for each field.
use wotpy.Prelude.{◌≡◌, refl, true, Option, none, some, List, text_eq, Text, All, if◌then◌else◌}
use wotpy.Outcome.{ok}
use wotpy.Dict
use wotpy.Dict.{Dict}
use wotpy.Json.{Json}
use wotpy.Names.{to_snake}
use wotpy.Names.RoundTrip.{is_camel, to_camel-to_snake}
use wotpy.Dictionaries.{Init, WotClass, elem, get_item, get_attribute, of_class, or_null}

abbrev pub AllCamel : List Text → Type 0
AllCamel = All (λ f. is_camel f ≡ true)

-- The value of a field's attribute, a constant of the class before anything else.
abbrev pub value_at : WotClass → Init → Text → Json
value_at c init f = elim (Dict.get (to_snake f) c.constants) [
  | some v ↦ v
  | none ↦
      if Dict.contains f init then or_null (Dict.get f init) else or_null (Dict.get f c.defaults)
]

pub get_attribute_lem :
    (c : WotClass) (init : Init) (f : Text)
    → is_camel f ≡ true
    → elem f c.fields ≡ true
    → get_attribute c init (to_snake f) ≡ ok (value_at c init f)
unfolding get_attribute get_item
get_attribute_lem c init f camel there = go (Dict.get (to_snake f) c.constants)
  where
    go :
        (o : Option Json)
        → of_class o (get_item c init (to_snake f))
          ≡ ok (elim o [
            | some v ↦ v
            | none ↦
                if Dict.contains f init
                then or_null (Dict.get f init)
                else or_null (Dict.get f c.defaults)
          ])
    go (some v) = refl
    go none = rw (to_camel-to_snake f camel, there) refl
