-- ===== src/Dictionaries/RoundTrip.antt =====
-- `to_dict` and the constructor of a class.
use wotpy.Prelude.{
  ◌≡◌, ◌∙◌, refl, sym, ap, Bool, Bool-cases, inl, inr, true, ◌||◌, Option, none, some, List, [],
  ◌∷◌, ◌==◌, text_eq, text_beq_iff, Text, All, arith, if◌then◌else◌,
}
use mathlib.Core.Path.{subst}
use wotpy.Outcome.{ok}
use wotpy.Dict
use wotpy.Dict.Laws.{contains-eq_get-none}
use wotpy.Json.{Json}
use wotpy.Names.{to_snake}
use wotpy.Names.RoundTrip.{is_camel}
use wotpy.Dictionaries.{
  Init, WotClass, elem, get_attribute, is_existing, fields_to_dict, to_dict, or_null, camel_into,
  check_required, new_wot_dict, merge_args_kwargs_dict,
}
use wotpy.Dictionaries.Attributes.{AllCamel, value_at, get_attribute_lem}
use wotpy.Dictionaries.Given.{given, get-camel_into, contains-camel_into}

-- A dictionary has every field that its class requires, and the class has them too.
abbrev Has : List Text → Init → Type 0
Has fs d = All (λ f. Dict.contains f d ≡ true) fs

check_required-Has :
    (fs : List Text) (d init : Init) → check_required fs d ≡ ok init → (d ≡ init) × Has fs d
check_required-Has [] d init h = (ground (arith, h), tt)
check_required-Has (f ∷ fs) d init h = elim (Bool-cases (Dict.contains f d)) [
  | inl there ↦
      let rest = check_required-Has fs d init (ground (arith, h, there)) in
      (rest.0, (there, rest.1))
  | inr missing ↦ absurd (ground (arith, h, missing))
]

requires : (fs : List Text) (d : Init) → Has fs d → check_required fs d ≡ ok d
requires [] d h = refl
requires (f ∷ fs) d h = rw (h.0, requires fs d h.1) refl

true_or : (b : Bool) → (b || true) ≡ true
true_or b = ground arith

no_constant : (o : Option Json) (x : Json) → o ≡ none → (elim o [ some v ↦ v | none ↦ x ]) ≡ x
no_constant none x h = refl
no_constant (some v) x h = absurd (ground (arith, h))

module _ (c : WotClass) (init : Init) where
  abbrev gives : List Text → Init
  gives = given (is_existing c init) (value_at c init)

  fields_to_dict_lem :
      (fs : List Text)
      → AllCamel fs
      → ((g : Text) → elem g fs ≡ true → elem g c.fields ≡ true)
      → fields_to_dict c init fs ≡ ok (gives fs)
  fields_to_dict_lem [] camel sub = refl
  fields_to_dict_lem (f ∷ fs) camel sub =
      let here = sub f (rw ((text_beq_iff f f).1 refl) refl) in
      let rest = fields_to_dict_lem fs camel.1 (λ g h. sub g (rw h (true_or (f == g)))) in
      elim (Bool-cases (is_existing c init f)) [
        | inl e ↦ rw (e, get_attribute_lem c init f camel.0 here, rest) refl
        | inr e ↦ rw (e, rest) refl
      ]

  contains-again :
      (f : Text)
      → AllCamel c.fields
      → elem f c.fields ≡ true
      → Dict.contains f (camel_into [] (gives c.fields)) ≡ is_existing c init f
  contains-again f camel there =
      contains-camel_into (is_existing c init) (value_at c init) f c.fields camel ∙ rw there refl

  camel_into-Has :
      (rs : List Text)
      → AllCamel c.fields
      → All (λ r. elem r c.fields ≡ true) rs
      → Has rs init
      → Has rs (camel_into [] (gives c.fields))
  camel_into-Has [] camel required has = tt
  camel_into-Has (r ∷ rs) camel required has =
      (contains-again r camel required.0 ∙ rw has.0 refl, camel_into-Has rs camel required.1 has.1)

  value_again :
      (f : Text)
      → AllCamel c.fields
      → elem f c.fields ≡ true
      → value_at c (camel_into [] (gives c.fields)) f ≡ value_at c init f
  value_again f camel there =
      go (Dict.get (to_snake f) c.constants) refl (contains-again f camel there)
        (get-camel_into (is_existing c init) (value_at c init) f c.fields [] camel ∙ rw there refl)
    where
      init' : Init
      init' = camel_into [] (gives c.fields)

      go :
          (o : Option Json)
          → Dict.get (to_snake f) c.constants ≡ o
          → Dict.contains f init' ≡ is_existing c init f
          → Dict.get f init'
            ≡ (if is_existing c init f then some (value_at c init f) else Dict.get f [])
          → (elim o [
            | some v ↦ v
            | none ↦
                if Dict.contains f init'
                then or_null (Dict.get f init')
                else or_null (Dict.get f c.defaults)
          ])
            ≡ (elim o [
              | some v ↦ v
              | none ↦
                  if Dict.contains f init
                  then or_null (Dict.get f init)
                  else or_null (Dict.get f c.defaults)
            ])
      go (some v) e there got = refl
      go none e there got =
          let plain = contains-eq_get-none (to_snake f) c.constants e in
          elim (Bool-cases (Dict.contains f init)) [
            | inl p ↦
                rw (there, got, p)
                  (no_constant (Dict.get (to_snake f) c.constants)
                      (if Dict.contains f init
                        then or_null (Dict.get f init)
                        else or_null (Dict.get f c.defaults))
                      e
                    ∙ rw p refl)
            | inr p ↦ rw (there, p, plain) refl
          ]

-- A dictionary whose class has the fields that it requires, all with names in camel case, is
-- written and built again: neither raises, and the attribute of every field is what it was, whatever
-- the class's defaults and constants are.
pub new_wot_dict-to_dict :
    (c : WotClass) (args : Option Init) (kwargs init : Init) (f : Text)
    → AllCamel c.fields
    → All (λ r. elem r c.fields ≡ true) c.required
    → new_wot_dict c args kwargs ≡ ok init
    → elem f c.fields ≡ true
    → (d : Init) × (init' : Init) × (to_dict c init ≡ ok d)
      × (new_wot_dict c (some d) [] ≡ ok init')
      × (get_attribute c init' (to_snake f) ≡ get_attribute c init (to_snake f))
unfolding new_wot_dict merge_args_kwargs_dict to_dict
new_wot_dict-to_dict c args kwargs init f camel required built there =
    let d = gives c init c.fields in
    let init' = camel_into [] d in
    let has =
      check_required-Has c.required (camel_into [] (merge_args_kwargs_dict args kwargs)) init
        built in
    (
      d,
      init',
      fields_to_dict_lem c init c.fields camel (λ g h. h),
      requires c.required init'
          (camel_into-Has c init c.required camel required (subst (Has c.required) has.0 has.1)),
      get_attribute_lem c init' f (camel_field c.fields camel there) there
          ∙ ap ok (value_again c init f camel there)
          ∙ sym (get_attribute_lem c init f (camel_field c.fields camel there) there),
    )
  where
    camel_field : (fs : List Text) → AllCamel fs → elem f fs ≡ true → is_camel f ≡ true
    camel_field [] h e = absurd (ground (arith, e))
    camel_field (g ∷ fs) h e = elim (Bool-cases (g == f)) [
      | inl q ↦ rw (← (text_beq_iff g f).0 q) h.0
      | inr q ↦ camel_field fs h.1 (ground (arith, e, q))
    ]
