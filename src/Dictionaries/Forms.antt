-- ===== src/Dictionaries/Forms.antt =====
-- The `forms` of the fragments of wotpy/wot/dictionaries/interaction.py, which write the default of `op`
-- into the class of all forms: that dictionary is the state. Whether a document counts as true is a parameter.
use wotpy.Prelude.{
  String, Bool, not, ◌&&◌, Option, none, some, List, [], ◌∷◌, text_eq, codes, if◌then◌else◌,
}
use wotpy.Outcome.{type_error, Outcome, ok, raised, Exec}
use wotpy.Dict
use wotpy.Dict.{Dict}
use wotpy.Json.{Json, Items, Fields, str, arr, obj, nil, cons, end, field}
use wotpy.Dictionaries.{Init, new_wot_dict, get_attribute, or_null}
use wotpy.Dictionaries.Classes.{form_dict}

-- A JSON object as a dictionary, where it is one
abbrev dict_of : Fields → Init
dict_of end = []
dict_of (field k v fs) = (codes k, v) ∷ dict_of fs

abbrev as_dict : Json → Option Init
as_dict (obj fs) = some (dict_of fs)
as_dict _ = none

-- What a document has when it is iterated
abbrev list_of : Items → List Json
list_of nil = []
list_of (cons x xs) = x ∷ list_of xs

abbrev keys_of : Fields → List Json
keys_of end = []
keys_of (field k v fs) = str k ∷ keys_of fs

abbrev characters : String → List Json
characters String.[] = []
characters (String.◌∷◌ c s) = str (String.◌∷◌ c String.[]) ∷ characters s

abbrev iterate : Option Json → Outcome (List Json)
iterate none = ok []
iterate (some (arr xs)) = ok (list_of xs)
iterate (some (obj fs)) = ok (keys_of fs)
iterate (some (str s)) = ok (characters s)
iterate (some _) = raised (type_error "object is not iterable")

abbrev add_form : Outcome Init → Outcome (List Init) → Outcome (List Init)
add_form (raised e) rest = raised e
add_form (ok form) (raised e) = raised e
add_form (ok form) (ok forms) = ok (form ∷ forms)

-- `FormDict(item)` of each; what is required does not depend on the defaults.
abbrev pub form_dicts : List Json → Outcome (List Init)
unfolding new_wot_dict
form_dicts [] = ok []
form_dicts (item ∷ items) =
    add_form (new_wot_dict (form_dict []) (as_dict item) []) (form_dicts items)

abbrev built_forms : Outcome (List Json) → Outcome (List Init)
unfolding form_dicts
built_forms (raised e) = raised e
built_forms (ok items) = form_dicts items

unfoldable pub forms_of : Init → Outcome (List Init)
unfolding built_forms
forms_of init = built_forms (iterate (Dict.get (codes "forms") init))

-- `form_dict.Meta.defaults["op"] = op` for each form
abbrev pub set_default : Json → List Init → Init → Init
set_default op [] defaults = defaults
set_default op (form ∷ forms) defaults = set_default op forms (Dict.set (codes "op") op defaults)

abbrev pub with_default : Json → Outcome (List Init) → Exec Init (List Init)
with_default op (raised e) defaults = (raised e, defaults)
with_default op (ok forms) defaults = (ok forms, set_default op forms defaults)

-- The fragment whose forms are read
pub data Fragment : Type 0 where
  property_fragment action_fragment event_fragment : (init : Init) → Fragment

abbrev pub init_of : Fragment → Init
init_of (property_fragment init) = init
init_of (action_fragment init) = init
init_of (event_fragment init) = init

abbrev pub two : String → String → Json
two a b = arr (cons (str a) (cons (str b) nil))

abbrev one_op : String → Json
one_op a = arr (cons (str a) nil)

module _ (is_true : Json → Bool) where
  -- `bool(self._init.get(name))`
  abbrev flag : String → Init → Bool
  flag name init = is_true (or_null (Dict.get (codes name) init))

  abbrev pub property_op : Init → Json
  property_op init =
      let read_only = flag "readOnly" init in
      let write_only = flag "writeOnly" init in
      if not read_only && not write_only
      then two "readproperty" "writeproperty"
      else if read_only
      then one_op "readproperty"
      else one_op "writeproperty"

  abbrev pub default_op : Fragment → Json
  default_op (property_fragment init) = property_op init
  default_op (action_fragment init) = str "invokeaction"
  default_op (event_fragment init) = two "subscribeevent" "unsubscribeevent"

  -- the `forms` of the three classes
  unfoldable pub fragment_forms : Fragment → Exec Init (List Init)
  unfolding forms_of
  fragment_forms x = with_default (default_op x) (forms_of (init_of x))

  -- The forms of some fragments, one after another
  unfoldable pub read_all : List Fragment → Init → Init
  unfolding fragment_forms
  read_all [] defaults = defaults
  read_all (x ∷ xs) defaults = read_all xs (fragment_forms x defaults).1

-- `form.op`, with the class's defaults at that moment
unfoldable pub op_of : Init → Init → Outcome Json
unfolding get_attribute
op_of defaults form = get_attribute (form_dict defaults) form (codes "op")
