-- ===== src/Dictionaries.antt =====
-- wotpy/wot/dictionaries: the dictionaries of the Scripting API, over `merge_args_kwargs_dict` of
-- wotpy/utils/utils.py. Keys are lists of code points. The text of an exception stops before the name in it.
pub mod Classes
pub mod Attributes
mod Given
pub mod RoundTrip
pub mod Schemes
pub mod Forms
pub mod Shared
use wotpy.Prelude.{
  Bool, true, false, ◌||◌, Option, none, some, List, [], ◌∷◌, ◌==◌, text_eq, Text, any,
  if◌then◌else◌,
}
use wotpy.Outcome.{value_error, attribute_error, Outcome, ok, raised}
use wotpy.Dict
use wotpy.Dict.{Dict}
use wotpy.Json.{Json, null}
use wotpy.Names.{to_camel, to_snake}

abbrev pub Init : Type 0
Init = Dict Text Json

-- A class: its `Meta`, and its properties that return a constant. A class without `required` or
-- `defaults` has none.
pub record WotClass : Type 0 where
  pub fields : List Text
  pub required : List Text
  pub defaults : Init
  pub constants : Init

abbrev pub elem : Text → List Text → Bool
elem x xs = any (λ y. y == x) xs

-- `d.update(kwargs)`
abbrev pub update : Init → Init → Init
update d [] = d
update d ((k, v) ∷ kwargs) = update (Dict.set k v d) kwargs

-- The first of `args` where it is a dictionary, which is what is updated and returned
unfoldable pub merge_args_kwargs_dict : Option Init → Init → Init
merge_args_kwargs_dict none kwargs = update [] kwargs
merge_args_kwargs_dict (some d) kwargs = update d kwargs

abbrev pub camel_into : Init → Init → Init
camel_into acc [] = acc
camel_into acc ((key, val) ∷ d) = camel_into (Dict.set (to_camel key) val acc) d

abbrev pub check_required : List Text → Init → Outcome Init
check_required [] init = ok init
check_required (f ∷ fs) init =
    let rest = check_required fs init in
    if Dict.contains f init then rest else raised (value_error "Missing required field")

-- `WotBaseDict.__init__`
unfoldable pub new_wot_dict : WotClass → Option Init → Init → Outcome Init
unfolding merge_args_kwargs_dict
new_wot_dict c args kwargs =
    check_required c.required (camel_into [] (merge_args_kwargs_dict args kwargs))

abbrev pub or_null : Option Json → Json
or_null none = null
or_null (some v) = v

-- `WotBaseDict.__getattr__`
unfoldable pub get_item : WotClass → Init → Text → Outcome Json
get_item c init name =
    let name_camel = to_camel name in
    if elem name_camel c.fields
    then ok (
        if Dict.contains name_camel init
        then or_null (Dict.get name_camel init)
        else or_null (Dict.get name_camel c.defaults))
    else raised (attribute_error "")

abbrev pub of_class : Option Json → Outcome Json → Outcome Json
of_class none rest = rest
of_class (some v) rest = ok v

-- `getattr(x, name)`
unfoldable pub get_attribute : WotClass → Init → Text → Outcome Json
unfolding get_item
get_attribute c init name = of_class (Dict.get name c.constants) (get_item c init name)

abbrev pub put_attribute : Text → Outcome Json → Outcome Init → Outcome Init
put_attribute f (raised e) rest = raised e
put_attribute f (ok v) (raised e) = raised e
put_attribute f (ok v) (ok d) = ok ((f, v) ∷ d)

-- `existing_fields` of `to_dict`; no property returns None.
abbrev pub is_existing : WotClass → Init → Text → Bool
is_existing c init f = Dict.contains f init || Dict.contains (to_snake f) c.constants

abbrev pub fields_to_dict : WotClass → Init → List Text → Outcome Init
fields_to_dict c init [] = ok []
fields_to_dict c init (f ∷ fs) =
    let rest = fields_to_dict c init fs in
    if is_existing c init f then put_attribute f (get_attribute c init (to_snake f)) rest else rest

-- `to_dict` of a class whose fields hold no other dictionary of the Scripting API
unfoldable pub to_dict : WotClass → Init → Outcome Init
unfolding get_attribute
to_dict c init = fields_to_dict c init c.fields
