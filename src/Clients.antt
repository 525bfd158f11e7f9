-- ===== src/Clients.antt =====
-- How a client of a binding picks a form of a Thing Description: wotpy/protocols/utils.py, the hrefs
-- that the clients of HTTP, CoAP and MQTT pick, `resolve_uri` of wot/dictionaries/link.py and
-- `get_forms` of wot/td.py. Parameters: what urllib says of a URL.
pub mod Supported
use wotpy.Prelude.{
  String, Bool, true, false, not, ◌&&◌, ◌||◌, Option, none, some, List, [], ◌∷◌, ◌==◌, string_eq,
  Text, codes, starts_with, any, keep, find?, if◌then◌else◌,
}
use wotpy.Outcome.{Outcome, ok, raised, key_error}
use wotpy.Dict
use wotpy.Dict.{Dict}
use wotpy.Thing.{Op, unset, one, many}

-- `FormDict`
pub record FormDict : Type 0 where
  pub href : String
  pub op : Op

-- `urlparse(url).scheme`, which is empty without one, and `urljoin`
pub record Urls : Type 0 where
  pub scheme : String → String
  pub urljoin : String → String → String

-- The forms of the interactions, by name
pub record ThingDescription : Type 0 where
  pub base : Option String
  pub properties : Dict String (List FormDict)
  pub actions : Dict String (List FormDict)
  pub events : Dict String (List FormDict)

abbrev pub item : String → Option (List FormDict) → Outcome (List FormDict)
item name none = raised (key_error name)
item name (some forms) = ok forms

abbrev or_nothing : Option (List FormDict) → List FormDict
or_nothing none = []
or_nothing (some forms) = forms

-- `get_property_forms`, `get_action_forms`
unfoldable pub get_property_forms : ThingDescription → String → Outcome (List FormDict)
get_property_forms td name = item name (Dict.get name td.properties)

unfoldable pub get_action_forms : ThingDescription → String → Outcome (List FormDict)
get_action_forms td name = item name (Dict.get name td.actions)

unfoldable pub get_event_forms : ThingDescription → String → Outcome (List FormDict)
get_event_forms td name = item name (Dict.get name td.events)

unfoldable pub get_forms : ThingDescription → String → Outcome (List FormDict)
unfolding get_property_forms get_action_forms get_event_forms
get_forms td name =
    if Dict.contains name td.properties
    then get_property_forms td name
    else if Dict.contains name td.actions
    then get_action_forms td name
    else if Dict.contains name td.events
    then get_event_forms td name
    else ok []

-- `part in text` of two strings
abbrev pub occurs : Text → Text → Bool
occurs part [] = starts_with part []
occurs part (c ∷ s) = starts_with part (c ∷ s) || occurs part s

-- `op is None or op == form.op or op in form.op`; nothing is in None.
abbrev pub is_op_form : Option String → FormDict → Bool
is_op_form none form = true
is_op_form (some op) form = elim form.op [
  | unset ↦ false
  | one s ↦ op == s || occurs (codes op) (codes s)
  | many ops ↦ any (λ s. s == op) ops
]

-- `form.op == op`, for an operation
abbrev pub has_op : Option String → FormDict → Bool
has_op none form = true
has_op (some op) form = elim form.op [ unset ↦ false | one s ↦ s == op | many ops ↦ false ]

abbrev pub is_some {ℓ} : {A : Type ℓ} → Option A → Bool
is_some none = false
is_some (some x) = true

abbrev pub href_of : Option FormDict → Option String
href_of none = none
href_of (some form) = some form.href

abbrev pub first_form : List FormDict → Option FormDict → Option FormDict
first_form [] rest = rest
first_form (form ∷ forms) rest = some form

abbrev pub or_else : Option String → Option String → Option String
or_else none rest = rest
or_else (some href) rest = some href

abbrev pub is_filled : List FormDict → Bool
is_filled [] = false
is_filled (form ∷ forms) = true

module _ (urls : Urls) where
  open urls use {urljoin}

  abbrev resolve_with : Option String → String → Option String
  resolve_with none href = if not (urls.scheme href == "") then some href else none
  resolve_with (some base) href =
      if not (base == "") && urls.scheme href == ""
      then some (urljoin base href)
      else if not (urls.scheme href == "")
      then some href
      else none

  unfoldable pub resolve_uri : Option String → FormDict → Option String
  resolve_uri base form = resolve_with base form.href

  abbrev pub scheme_in : List String → Option String → Bool
  scheme_in schemes none = false
  scheme_in schemes (some url) =
      if url == "" then false else any (λ s. s == urls.scheme url) schemes

  -- One scheme, or a list of them
  unfoldable pub is_scheme_form : Option String → List String → FormDict → Bool
  unfolding resolve_uri
  is_scheme_form base schemes form = scheme_in schemes (resolve_uri base form)

  unfoldable pub pick_form :
      Option String → List FormDict → Option String → List String → Option FormDict
  unfolding is_scheme_form
  pick_form base forms op [] = none
  pick_form base forms op (scheme ∷ schemes) =
      first_form (keep (has_op op) (keep (is_scheme_form base (scheme ∷ [])) forms))
        (pick_form base forms op schemes)

  abbrev pub find_href : Option String → List FormDict → Option String → String → Option String
  find_href base forms op scheme =
      href_of (find? (λ form. is_scheme_form base (scheme ∷ []) form && is_op_form op form) forms)

  -- The secure scheme comes first.
  unfoldable pub pick_href :
      String → String → Option String → List FormDict → Option String → Option String
  unfolding is_scheme_form
  pick_href secure plain base forms op =
      or_else (find_href base forms op secure) (find_href base forms op plain)

  unfoldable pub pick_http_href : Option String → List FormDict → Option String → Option String
  unfolding pick_href
  pick_http_href = pick_href "https" "http"

  unfoldable pub pick_coap_href : Option String → List FormDict → Option String → Option String
  unfolding pick_href
  pick_coap_href = pick_href "coaps" "coap"

  unfoldable pub pick_mqtt_href : Option String → List FormDict → Option String → Option String
  unfolding pick_href
  pick_mqtt_href = pick_href "mqtts" "mqtt"

  -- `is_supported_interaction`, of the forms that `get_forms` gives
  unfoldable pub is_supported : List String → Option String → List FormDict → Bool
  unfolding is_scheme_form
  is_supported schemes base forms = is_filled (keep (is_scheme_form base schemes) forms)
