-- ===== src/Http/Routes.antt =====
-- The routes of the HTTP server's application, and the addresses that its forms have.
use wotpy.Prelude.{
  ℕ, String, Option, none, some, List, [], ◌∷◌, ◌++◌, ◌==◌, string_eq, text_eq, Text, codes, split,
  join, lstrip, rstrip, if◌then◌else◌,
}
use wotpy.Thing.{Interaction, property, action, event}

pub data Route : Type 0 where
  property_read_write property_observer action_invoke_route event_observer : Route

-- What a server gives to `Form`: the content type is always JSON, the protocol HTTP.
pub record HttpForm : Type 0 where
  pub interaction : ℕ
  pub href : Text
  pub op : List String

abbrev names_of : Route → Text → Text → Option (Route × (Text × Text))
names_of r thing name =
    if thing == [] then none else if name == [] then none else some (r, (thing, name))

abbrev pub short_route : Text → Option Route
short_route kind =
    if kind == codes "property"
    then some property_read_write
    else if kind == codes "action"
    then some action_invoke_route
    else none

abbrev pub long_route : Text → Text → Option Route
long_route kind last =
    if last == codes "subscription"
    then (if kind == codes "property"
        then some property_observer
        else if kind == codes "event"
        then some event_observer
        else none)
    else none

abbrev pub with_names : Option Route → Text → Text → Option (Route × (Text × Text))
with_names none thing name = none
with_names (some r) thing name = names_of r thing name

abbrev match_parts : List Text → Option (Route × (Text × Text))
match_parts ([] ∷ thing ∷ kind ∷ name ∷ []) = with_names (short_route kind) thing name
match_parts ([] ∷ thing ∷ kind ∷ name ∷ last ∷ []) = with_names (long_route kind last) thing name
match_parts _ = none

-- The handler for a path, with `thing_name` and `name`: a part `[^\/]+` is any part but the empty one.
unfoldable pub route : Text → Option (Route × (Text × Text))
route path = match_parts (split b'/' path)

-- `hostname.rstrip("/").lstrip("/")`
abbrev pub trim_slashes : Text → Text
trim_slashes hostname = lstrip b'/' (rstrip b'/' hostname)

-- scheme://host:port
abbrev pub origin : Text → Text → Text → Text
origin scheme form_port hostname =
    scheme ++ codes "://" ++ trim_slashes hostname ++ b':' ∷ form_port

-- The path of an interaction: the URL name of the Thing, and what follows
abbrev pub path_of : Text → List Text → Text
path_of thing parts = join b'/' ([] ∷ thing ∷ parts)

module _ (slugify : String → String) (scheme : Text) (form_port : Text) where
  abbrev form_at : Text → Text → Interaction → List Text → List String → HttpForm
  form_at hostname thing i parts op = record {
    interaction = i.oid;
    href = origin scheme form_port hostname ++ path_of thing parts;
    op = op;
  }

  unfoldable pub http_forms_property : Text → Text → Interaction → List HttpForm
  http_forms_property hostname thing i =
      let name = codes (slugify i.name) in
      form_at hostname thing i (codes "property" ∷ name ∷ [])
        ("readproperty" ∷ "writeproperty" ∷ [])
      ∷ form_at hostname thing i (codes "property" ∷ name ∷ codes "subscription" ∷ [])
          ("observeproperty" ∷ [])
      ∷ []

  unfoldable pub http_forms_action : Text → Text → Interaction → List HttpForm
  http_forms_action hostname thing i =
      form_at hostname thing i (codes "action" ∷ codes (slugify i.name) ∷ []) ("invokeaction" ∷ [])
      ∷ []

  unfoldable pub http_forms_event : Text → Text → Interaction → List HttpForm
  http_forms_event hostname thing i =
      form_at hostname thing i (codes "event" ∷ codes (slugify i.name) ∷ codes "subscription" ∷ [])
        ("subscribeevent" ∷ [])
      ∷ []

  -- `build_forms`
  unfoldable pub http_build_forms : Text → Text → Interaction → List HttpForm
  unfolding http_forms_property http_forms_action http_forms_event
  http_build_forms hostname thing i = elim i.kind [
    | property ↦ http_forms_property hostname thing i
    | action ↦ http_forms_action hostname thing i
    | event ↦ http_forms_event hostname thing i
  ]
