-- ===== src/Tests/Dictionary.antt =====
-- A version, a security scheme, and the forms of two fragments.
use wotpy.Prelude.{
  String, ◌≡◌, refl, Bool, true, false, some, [], ◌∷◌, ◌++◌, codes, text_eq, if◌then◌else◌,
}
use wotpy.Outcome.{ok}
use wotpy.Dict
use wotpy.Json.{Json, bool, str, arr, obj, nil, cons, end, field}
use wotpy.Names.{to_camel, to_snake, is_upper, is_lower}
use wotpy.Dictionaries.{Init, new_wot_dict, to_dict, get_attribute, merge_args_kwargs_dict, or_null}
use wotpy.Dictionaries.Classes.{
  versioning_dict, form_defaults, security_build, basic_security_scheme_dict,
}
use wotpy.Dictionaries.RoundTrip.{new_wot_dict-to_dict}
use wotpy.Dictionaries.Schemes.{security_build-get_attribute}
use wotpy.Dictionaries.Forms.{
  Fragment, property_fragment, action_fragment, default_op, forms_of, read_all, op_of,
}
use wotpy.Dictionaries.Shared.{has_forms, op_of-read_all}

abbrev version : Init
version = (codes "instance", str "1.2.1") ∷ []

version_built : new_wot_dict versioning_dict (some version) [] ≡ ok version
unfolding new_wot_dict merge_args_kwargs_dict to_camel Dict.set Dict.contains is_upper is_lower
version_built = refl

new_wot_dict-to_dict_example :
    (d : Init) × (init' : Init) × (to_dict versioning_dict version ≡ ok d)
    × (new_wot_dict versioning_dict (some d) [] ≡ ok init')
    × (get_attribute versioning_dict init' (to_snake (codes "model"))
        ≡ get_attribute versioning_dict version (to_snake (codes "model")))
unfolding is_upper is_lower
new_wot_dict-to_dict_example =
    new_wot_dict-to_dict versioning_dict (some version) [] version (codes "model")
      (refl, (refl, tt)) (refl, tt) version_built refl

abbrev scheme : Init
scheme = (codes "scheme", str "basic") ∷ []

scheme_built : security_build (some scheme) [] ≡ ok (basic_security_scheme_dict, scheme)
unfolding security_build new_wot_dict merge_args_kwargs_dict to_camel Dict.set Dict.contains
    Dict.get is_upper is_lower
scheme_built = refl

security_build-get_attribute_example :
    (s : String) × (Dict.get (codes "scheme") (merge_args_kwargs_dict (some scheme) [])
      ≡ some (str s))
    × (get_attribute basic_security_scheme_dict scheme (codes "scheme") ≡ ok (str s))
security_build-get_attribute_example =
    security_build-get_attribute (some scheme) [] basic_security_scheme_dict scheme scheme_built

abbrev a_form : Json
a_form = obj (field "href" (str "/x") end)

abbrev a_property : Fragment
a_property = property_fragment ((codes "forms", arr (cons a_form nil)) ∷ [])

abbrev an_action : Fragment
an_action = action_fragment ((codes "forms", arr (cons a_form nil)) ∷ [])

abbrev is_true : Json → Bool
is_true (bool b) = b
is_true j = false

abbrev property_form : Init
property_form = (codes "href", str "/x") ∷ []

action_has_forms : has_forms (forms_of ((codes "forms", arr (cons a_form nil)) ∷ [])) ≡ true
unfolding forms_of new_wot_dict merge_args_kwargs_dict to_camel Dict.set Dict.contains Dict.get
    is_upper is_lower
action_has_forms = refl

-- The form of the property answers the operation of the action that was read after it.
op_of-read_all_example :
    op_of (read_all is_true (a_property ∷ [] ++ an_action ∷ []) form_defaults) property_form
    ≡ ok (
        if Dict.contains (codes "op") property_form
        then or_null (Dict.get (codes "op") property_form)
        else default_op is_true an_action)
op_of-read_all_example =
    op_of-read_all is_true (a_property ∷ []) an_action [] form_defaults property_form
      action_has_forms tt
