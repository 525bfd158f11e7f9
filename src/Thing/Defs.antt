-- ===== src/Thing/Defs.antt =====
-- The definitions of wotpy/wot/thing.py, wotpy/wot/interaction.py and wotpy/wot/form.py.
use wotpy.Prelude.{
  ℕ, String, Bool, true, false, ◌||◌, not, Option, none, some, List, [], ◌∷◌, ◌++◌, ◌==◌, nat_eq,
  string_eq, any, find?, codes, if◌then◌else◌,
}
use wotpy.Outcome.{Outcome, ok, raised, value_error, attribute_error, assertion_error}
use wotpy.Dict
use wotpy.Dict.{Dict}
use wotpy.Names.{is_valid_safe_name}

-- wot/enums.py
pub data InteractionType : Type 0 where
  property action event : InteractionType

-- The `op` of a form: absent, a string or a list of strings.
pub data Op : Type 0 where
  unset : Op
  one : String → Op
  many : List String → Op

pub record Form : Type 0 where
  pub oid : ℕ
  pub interaction : ℕ
  pub protocol : Option String
  pub href : String
  pub content_type : String
  pub op : Op

-- What the code reads of the initialization dictionary (`_init_dict`).
pub record Fragment : Type 0 where
  pub read_only : Bool
  pub observable : Bool

pub record Interaction : Type 0 where
  pub oid : ℕ
  pub thing : ℕ
  pub name : String
  pub kind : InteractionType
  pub init_dict : Fragment
  pub td_forms : List Form
  pub autogenerated_forms : List Form

pub record Thing : Type 0 where
  pub oid : ℕ
  pub title : String
  pub base : Option String
  pub properties : Dict String Interaction
  pub actions : Dict String Interaction
  pub events : Dict String Interaction

-- `InteractionPattern.__init__`: the forms of the initialization dictionary have been built.
unfoldable pub new_interaction :
    ℕ → ℕ → String → InteractionType → Fragment → List Form → Outcome Interaction
new_interaction oid thing name kind init forms =
    if not (is_valid_safe_name (codes name))
    then raised (value_error "Invalid Interaction name")
    else ok (record {
      oid = oid;
      thing = thing;
      name = name;
      kind = kind;
      init_dict = init;
      td_forms = forms;
      autogenerated_forms = [];
    })

unfoldable pub forms : Interaction → List Form
forms self = self.td_forms ++ self.autogenerated_forms

unfoldable pub clean_forms : Interaction → Interaction
clean_forms self = record self { autogenerated_forms = [] }

-- `self._autogenerated_forms.index(form)` and `pop`: the first form that is `form`.
abbrev pub drop_form : ℕ → List Form → List Form
drop_form oid [] = []
drop_form oid (f ∷ fs) = if f.oid == oid then fs else f ∷ drop_form oid fs

unfoldable pub remove_form : Form → Interaction → Interaction
remove_form form self = record self {
  autogenerated_forms = drop_form form.oid self.autogenerated_forms;
}

-- `PropertyFragmentDict.writable`
abbrev pub writable : Interaction → Bool
writable self = not self.init_dict.read_only

-- `interaction.observable`: only the dictionary of a property has this field.
unfoldable pub observable : Interaction → Outcome Bool
observable self = elim self.kind [
  | property ↦ ok self.init_dict.observable
  | _ ↦ raised (attribute_error "observable")
]

module _ (hash : Option String → String → String → Op → ℕ) where
  -- `Form.id`
  unfoldable pub form_id : Form → ℕ
  form_id form = hash form.protocol form.href form.content_type form.op

  -- The assertion `form.interaction is self` may fail.
  unfoldable pub add_form : Form → Interaction → Outcome Interaction
  unfolding form_id
  add_form form self =
      if not (form.interaction == self.oid)
      then raised (assertion_error "form.interaction is self")
      else if any (λ item. form_id item == form_id form) self.autogenerated_forms
      then raised (value_error "Duplicate Form")
      else ok (record self { autogenerated_forms = self.autogenerated_forms ++ form ∷ [] })

abbrev pub interactions : Thing → List Interaction
interactions self =
    Dict.values self.properties ++ (Dict.values self.actions ++ Dict.values self.events)

-- The dictionary of the kind, and a thing with another dictionary for the kind.
abbrev pub dict_of : InteractionType → Thing → Dict String Interaction
dict_of property self = self.properties
dict_of action self = self.actions
dict_of event self = self.events

abbrev pub with_dict : InteractionType → Dict String Interaction → Thing → Thing
with_dict property d self = record self { properties = d }
with_dict action d self = record self { actions = d }
with_dict event d self = record self { events = d }

module _ (slugify : String → String) where
  abbrev pub is_match : String → Interaction → Bool
  is_match name intrct = intrct.name == name || slugify intrct.name == name

  unfoldable pub find_interaction : String → Thing → Option Interaction
  find_interaction name self = find? (is_match name) (interactions self)

  abbrev pub taken : Option Interaction → Bool
  taken none = false
  taken (some i) = true

  unfoldable pub add_interaction : Interaction → Thing → Outcome Thing
  add_interaction interaction self =
      if not (interaction.thing == self.oid)
      then raised (value_error "Interaction linked to another Thing")
      else if taken (find_interaction interaction.name self)
          || taken (find_interaction (slugify interaction.name) self)
      then raised (value_error "Duplicate Interaction")
      else ok (
          with_dict interaction.kind
            (Dict.set interaction.name interaction (dict_of interaction.kind self)) self)

  unfoldable pub remove_interaction : String → Thing → Thing
  remove_interaction name self = elim (find_interaction name self) [
    | none ↦ self
    | some interaction ↦ record self {
      properties = Dict.pop interaction.name self.properties;
      actions = Dict.pop interaction.name self.actions;
      events = Dict.pop interaction.name self.events;
    }
  ]
