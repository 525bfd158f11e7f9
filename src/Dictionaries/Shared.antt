-- ===== src/Dictionaries/Shared.antt =====
-- What a form without an operation of its own answers.
use wotpy.Prelude.{
  ◌≡◌, ◌∙◌, refl, ap, Bool, true, false, some, List, [], ◌∷◌, ◌++◌, All, text_eq, Text, codes,
  arith, if◌then◌else◌,
}
use wotpy.Outcome.{Outcome, ok, raised}
use wotpy.Dict
use wotpy.Dict.Laws.{get-set}
use wotpy.Json.{Json}
use wotpy.Names.{to_camel}
use wotpy.Dictionaries.{Init, get_item, get_attribute, or_null}
use wotpy.Dictionaries.Forms.{
  Fragment, init_of, default_op, fragment_forms, forms_of, with_default, set_default, op_of,
  read_all,
}

abbrev op_key : Text
op_key = codes "op"

get-set_default :
    (op : Json) (form : Init) (forms : List Init) (defaults : Init)
    → Dict.get op_key (set_default op (form ∷ forms) defaults) ≡ some op
get-set_default op form [] defaults = get-set op_key op_key op defaults
get-set_default op form (g ∷ gs) defaults = get-set_default op g gs (Dict.set op_key op defaults)

op_of_lem :
    (defaults form : Init)
    → op_of defaults form
      ≡ ok (
          if Dict.contains op_key form
          then or_null (Dict.get op_key form)
          else or_null (Dict.get op_key defaults))
unfolding op_of get_attribute get_item to_camel Dict.get
op_of_lem defaults form = refl

-- Whether reading the forms of a fragment gives some.
abbrev pub has_forms : Outcome (List Init) → Bool
has_forms (raised e) = false
has_forms (ok []) = false
has_forms (ok (form ∷ forms)) = true

silent :
    (op : Json) (r : Outcome (List Init)) (defaults : Init)
    → has_forms r ≡ false
    → (with_default op r defaults).1 ≡ defaults
silent op (raised e) defaults h = refl
silent op (ok []) defaults h = refl
silent op (ok (form ∷ forms)) defaults h = absurd (ground (arith, h))

writes :
    (op : Json) (r : Outcome (List Init)) (defaults : Init)
    → has_forms r ≡ true
    → Dict.get op_key (with_default op r defaults).1 ≡ some op
writes op (raised e) defaults h = absurd (ground (arith, h))
writes op (ok []) defaults h = absurd (ground (arith, h))
writes op (ok (form ∷ forms)) defaults h = get-set_default op form forms defaults

module _ (is_true : Json → Bool) where
  read_silent :
      (later : List Fragment) (defaults : Init)
      → All (λ y. has_forms (forms_of (init_of y)) ≡ false) later
      → read_all is_true later defaults ≡ defaults
  unfolding read_all fragment_forms
  read_silent [] defaults h = refl
  read_silent (y ∷ later) defaults h =
      ap (read_all is_true later)
        (silent (default_op is_true y) (forms_of (init_of y)) defaults h.0)
      ∙ read_silent later defaults h.1

  read_last :
      (earlier : List Fragment) (x : Fragment) (later : List Fragment) (defaults : Init)
      → has_forms (forms_of (init_of x)) ≡ true
      → All (λ y. has_forms (forms_of (init_of y)) ≡ false) later
      → Dict.get op_key (read_all is_true (earlier ++ x ∷ later) defaults)
        ≡ some (default_op is_true x)
  unfolding read_all fragment_forms
  read_last [] x later defaults some_forms none_later =
      ap (Dict.get op_key) (
        read_silent later (with_default (default_op is_true x) (forms_of (init_of x)) defaults).1
          none_later)
      ∙ writes (default_op is_true x) (forms_of (init_of x)) defaults some_forms
  read_last (y ∷ earlier) x later defaults some_forms none_later =
      read_last earlier x later (fragment_forms is_true y defaults).1 some_forms none_later

  -- A form without an `op` of its own answers the default of the fragment whose forms were read last,
  -- whichever fragment the form belongs to: after any reads, then one that gives forms, then
  -- some that give none. A form with an `op` answers that.
  pub op_of-read_all :
      (earlier : List Fragment) (x : Fragment) (later : List Fragment) (defaults form : Init)
      → has_forms (forms_of (init_of x)) ≡ true
      → All (λ y. has_forms (forms_of (init_of y)) ≡ false) later
      → op_of (read_all is_true (earlier ++ x ∷ later) defaults) form
        ≡ ok (
            if Dict.contains op_key form
            then or_null (Dict.get op_key form)
            else default_op is_true x)
  op_of-read_all earlier x later defaults form some_forms none_later =
      op_of_lem (read_all is_true (earlier ++ x ∷ later) defaults) form
      ∙ rw (read_last earlier x later defaults some_forms none_later) refl
