-- ===== src/Consumed.antt =====
-- wotpy/wot/consumed: a Thing that an application uses through the client of a binding. What changes is
-- outside: the state of the client.
pub mod Bindings
pub mod Objects
use wotpy.Prelude.{
  ℕ, String, Bool, true, false, Option, none, some, List, [], ◌∷◌, ◌==◌, string_eq, find?,
  if◌then◌else◌,
}
use wotpy.Outcome.{key_error, Outcome, ok, raised, Exec, lift, ◌>>=◌}
use wotpy.Dict
use wotpy.Dict.{Dict}
use wotpy.Json.{Json, null}

abbrev pub Kwargs : Type 0
Kwargs = Dict String Json

-- The requests of a client for the interactions of a TD, by name, with the timeout and the keyword arguments
pub record ProtocolClient (S : Type 0) : Type 0 where
  pub protocol : String
  pub invoke_action : String → Json → Option ℕ → Kwargs → Exec S Json
  pub write_property : String → Json → Option ℕ → Kwargs → Exec S (Unit {0})
  pub read_property : String → Option ℕ → Kwargs → Exec S Json

-- `select` is the servient's `select_client` for the TD, whose interactions stand in order.
pub record ConsumedThing (S : Type 0) : Type 0 where
  pub select : String → Outcome (ProtocolClient S)
  pub properties : List String
  pub actions : List String

abbrev kwargs_of : Option Kwargs → Kwargs
kwargs_of none = []
kwargs_of (some kwargs) = kwargs

-- `client_kwargs.get(client.protocol, {})`, where None is no keyword arguments
abbrev pub kwargs_for : Option (Dict String Kwargs) → String → Kwargs
kwargs_for none protocol = []
kwargs_for (some d) protocol = kwargs_of (Dict.get protocol d)

module _ {S : Type 0} (thing : ConsumedThing S) where
  unfoldable pub consumed_invoke_action :
      String → Json → Option ℕ → Option (Dict String Kwargs) → Exec S Json
  consumed_invoke_action name input_value timeout client_kwargs = do
    client ← lift (thing.select name)
    client.invoke_action name input_value timeout (kwargs_for client_kwargs client.protocol)

  unfoldable pub consumed_write_property :
      String → Json → Option ℕ → Option (Dict String Kwargs) → Exec S (Unit {0})
  consumed_write_property name value timeout client_kwargs = do
    client ← lift (thing.select name)
    client.write_property name value timeout (kwargs_for client_kwargs client.protocol)

  unfoldable pub consumed_read_property :
      String → Option ℕ → Option (Dict String Kwargs) → Exec S Json
  consumed_read_property name timeout client_kwargs = do
    client ← lift (thing.select name)
    client.read_property name timeout (kwargs_for client_kwargs client.protocol)

  module _ (slugify : String → String) where
    -- `_find_normalized_name` of the interaction dictionaries
    unfoldable pub consumed_normalized : List String → String → Option String
    consumed_normalized keys name = find? (λ key. slugify key == slugify name) keys

    abbrev pub is_known : Option String → Bool
    is_known none = false
    is_known (some key) = true

    -- `name in thing.properties`
    unfoldable pub consumed_contains : List String → String → Bool
    unfolding consumed_normalized
    consumed_contains keys name = is_known (consumed_normalized keys name)

    abbrev key_or_raise : String → Option String → Outcome String
    key_or_raise name none = raised (key_error name)
    key_or_raise name (some key) = ok key

    -- `thing.properties[name]`: the name that the object holds
    unfoldable pub consumed_item : List String → String → Outcome String
    unfolding consumed_normalized
    consumed_item keys name = key_or_raise name (consumed_normalized keys name)

    -- `thing.properties[name].read()`, `.write(value)` and `thing.actions[name].invoke(...)`
    unfoldable pub consumed_property_read :
        String → Option ℕ → Option (Dict String Kwargs) → Exec S Json
    unfolding consumed_item consumed_read_property
    consumed_property_read name timeout client_kwargs = do
      key ← lift (consumed_item thing.properties name)
      consumed_read_property key timeout client_kwargs

    unfoldable pub consumed_property_write :
        String → Json → Option ℕ → Option (Dict String Kwargs) → Exec S (Unit {0})
    unfolding consumed_item consumed_write_property
    consumed_property_write name value timeout client_kwargs = do
      key ← lift (consumed_item thing.properties name)
      consumed_write_property key value timeout client_kwargs

    abbrev first_argument : List Json → Json
    first_argument [] = null
    first_argument (x ∷ xs) = x

    unfoldable pub consumed_action_invoke :
        String → List Json → Option ℕ → Option (Dict String Kwargs) → Exec S Json
    unfolding consumed_item consumed_invoke_action
    consumed_action_invoke name args timeout client_kwargs = do
      key ← lift (consumed_item thing.actions name)
      consumed_invoke_action key (first_argument args) timeout client_kwargs
