-- ===== src/Dictionaries/Classes.antt =====
-- The classes of wotpy/wot/dictionaries, by their `Meta`, and the two `build` that choose one by a type.
use wotpy.Prelude.{
  String, false, Option, none, some, List, [], ◌∷◌, string_eq, text_eq, map, Text, codes,
}
use wotpy.Outcome.{value_error, type_error, Outcome, ok, raised}
use wotpy.Dict
use wotpy.Dict.{Dict}
use wotpy.Json.{Json, bool, str, arr, obj}
use wotpy.Dictionaries.{Init, WotClass, merge_args_kwargs_dict, new_wot_dict}

abbrev pub names : List String → List Text
names = map codes

abbrev class_of : List String → List String → Init → Init → WotClass
class_of fields required defaults constants = record {
  fields = names fields;
  required = names required;
  defaults = defaults;
  constants = constants;
}

-- link.py, response.py, version.py, filter.py
abbrev pub link_dict : WotClass
link_dict =
    class_of ("href" ∷ "type" ∷ "rel" ∷ "anchor" ∷ "sizes" ∷ "hreflang" ∷ []) ("href" ∷ []) [] []

abbrev pub form_fields : List String
form_fields =
    "href" ∷ "contentType" ∷ "contentCoding" ∷ "security" ∷ "scopes" ∷ "response"
    ∷ "additionalResponses" ∷ "subprotocol" ∷ "op" ∷ []

-- The defaults of forms are one dictionary, which the interactions write to. The properties `response` and
-- `additional_responses` are not modelled, nor is `to_dict` of a form, which calls them.
abbrev pub form_dict : Init → WotClass
form_dict defaults = class_of form_fields ("href" ∷ []) defaults []

abbrev pub form_defaults : Init
form_defaults = (codes "contentType", str "application/json") ∷ []

abbrev pub expected_response : WotClass
expected_response = class_of ("contentType" ∷ []) ("contentType" ∷ []) [] []

abbrev pub additional_expected_response : WotClass
additional_expected_response =
    class_of ("success" ∷ "contentType" ∷ "schema" ∷ []) ("contentType" ∷ [])
      ((codes "success", bool false) ∷ []) []

abbrev pub versioning_dict : WotClass
versioning_dict = class_of ("instance" ∷ "model" ∷ []) ("instance" ∷ []) [] []

abbrev pub thing_filter_dict : WotClass
thing_filter_dict =
    class_of ("method" ∷ "url" ∷ "query" ∷ "fragment" ∷ []) [] ((codes "method", str "any") ∷ []) []

-- security.py: a class of security schemes adds fields, and has its scheme as a property.
abbrev security_of : String → List String → Init → WotClass
security_of scheme fields defaults =
    class_of ("@type" ∷ "description" ∷ "descriptions" ∷ "proxy" ∷ "scheme" ∷ fields)
      ("scheme" ∷ []) defaults ((codes "scheme", str scheme) ∷ [])

abbrev no_security_scheme_dict : WotClass
no_security_scheme_dict = security_of "nosec" [] []

abbrev auto_security_scheme_dict : WotClass
auto_security_scheme_dict = security_of "auto" [] []

abbrev combo_security_scheme_dict : WotClass
combo_security_scheme_dict = security_of "combo" ("oneOf" ∷ "allOf" ∷ []) []

abbrev pub basic_security_scheme_dict : WotClass
basic_security_scheme_dict =
    security_of "basic" ("in" ∷ "name" ∷ []) ((codes "in", str "header") ∷ [])

abbrev digest_security_scheme_dict : WotClass
digest_security_scheme_dict =
    security_of "digest" ("qop" ∷ "in" ∷ "name" ∷ [])
      ((codes "qop", str "auth") ∷ (codes "in", str "header") ∷ [])

abbrev api_key_security_scheme_dict : WotClass
api_key_security_scheme_dict =
    security_of "apikey" ("in" ∷ "name" ∷ []) ((codes "in", str "query") ∷ [])

abbrev bearer_security_scheme_dict : WotClass
bearer_security_scheme_dict =
    security_of "bearer" ("authorization" ∷ "alg" ∷ "format" ∷ "in" ∷ "name" ∷ [])
      ((codes "alg", str "ES256") ∷ (codes "format", str "jwt") ∷ (codes "in", str "header") ∷ [])

abbrev psk_security_scheme_dict : WotClass
psk_security_scheme_dict = security_of "psk" ("identity" ∷ []) []

abbrev oauth2_security_scheme_dict : WotClass
oauth2_security_scheme_dict =
    security_of "oauth2" ("authorization" ∷ "token" ∷ "refresh" ∷ "scopes" ∷ "flow" ∷ [])
      ((codes "flow", str "implicit") ∷ [])

-- `klass_map` of `SecuritySchemeDict.build`
abbrev pub security_classes : Dict String WotClass
security_classes =
    ("nosec", no_security_scheme_dict)
    ∷ ("auto", auto_security_scheme_dict)
    ∷ ("combo", combo_security_scheme_dict)
    ∷ ("basic", basic_security_scheme_dict)
    ∷ ("digest", digest_security_scheme_dict)
    ∷ ("apikey", api_key_security_scheme_dict)
    ∷ ("bearer", bearer_security_scheme_dict)
    ∷ ("psk", psk_security_scheme_dict)
    ∷ ("oauth2", oauth2_security_scheme_dict)
    ∷ []

-- schema.py: the fields and the type of each class of data schemas. What `to_dict` builds of nested
-- schemas, and the attributes that do, are not here.
abbrev schema_of : String → List String → WotClass
schema_of type fields =
    class_of
      ("@type" ∷ "title" ∷ "titles" ∷ "description" ∷ "descriptions" ∷ "const" ∷ "default" ∷ "unit"
        ∷ "oneOf" ∷ "enum" ∷ "readOnly" ∷ "writeOnly" ∷ "format" ∷ "type" ∷ fields)
      [] ((codes "readOnly", bool false) ∷ (codes "writeOnly", bool false) ∷ [])
      ((codes "type", str type) ∷ [])

abbrev number_fields : List String
number_fields = "minimum" ∷ "exclusiveMinimum" ∷ "maximum" ∷ "exclusiveMaximum" ∷ "multipleOf" ∷ []

-- `klass_map` of `DataSchemaDict.build`
abbrev pub schema_classes : Dict String WotClass
schema_classes =
    ("number", schema_of "number" number_fields)
    ∷ ("boolean", schema_of "boolean" [])
    ∷ (
      "string",
      schema_of "string"
          ("minLength" ∷ "maxLength" ∷ "pattern" ∷ "contentEncoding" ∷ "contentMediaType" ∷ []),
    )
    ∷ ("object", schema_of "object" ("properties" ∷ "required" ∷ []))
    ∷ ("array", schema_of "array" ("items" ∷ "minItems" ∷ "maxItems" ∷ []))
    ∷ ("integer", schema_of "integer" number_fields)
    ∷ ("null", schema_of "null" [])
    ∷ []

-- `klass_map.get(x)`; a list or a dictionary has no hash.
abbrev pub class_named : Dict String WotClass → Option Json → Outcome (Option WotClass)
class_named classes (some (str s)) = ok (Dict.get s classes)
class_named classes (some (arr xs)) = raised (type_error "unhashable type")
class_named classes (some (obj fs)) = raised (type_error "unhashable type")
class_named classes o = ok none

abbrev pub with_class : WotClass → Outcome Init → Outcome (WotClass × Init)
with_class c (raised e) = raised e
with_class c (ok init) = ok (c, init)

abbrev pub build_found :
    String → Outcome (Option WotClass) → Option Init → Init → Outcome (WotClass × Init)
build_found unknown (raised e) args kwargs = raised e
build_found unknown (ok none) args kwargs = raised (value_error unknown)
build_found unknown (ok (some c)) args kwargs = with_class c (new_wot_dict c args kwargs)

unfoldable pub security_build : Option Init → Init → Outcome (WotClass × Init)
unfolding merge_args_kwargs_dict
security_build args kwargs =
    build_found "Unknown scheme"
      (class_named security_classes
        (Dict.get (codes "scheme") (merge_args_kwargs_dict args kwargs)))
      args kwargs

unfoldable pub schema_build : Option Init → Init → Outcome (WotClass × Init)
unfolding merge_args_kwargs_dict
schema_build args kwargs =
    build_found "Unknown type"
      (class_named schema_classes (Dict.get (codes "type") (merge_args_kwargs_dict args kwargs)))
      args kwargs
