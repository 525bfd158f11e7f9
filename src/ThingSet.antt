-- ===== src/ThingSet.antt =====
-- wotpy/wot/exposed/thing_set.py: the ExposedThings of one servient or server, by title. An element
-- is a reference to an ExposedThing: equality compares the servient and the Thing by identity.
pub mod Lookup
use wotpy.Prelude.{
  ℕ, String, Bool, true, ◌&&◌, ◌||◌, not, Option, none, some, ◌==◌, nat_eq, string_eq, any, find?,
  if◌then◌else◌,
}
use wotpy.Outcome.{Outcome, ok, raised, value_error}
use wotpy.Dict
use wotpy.Dict.{Dict, values}

-- The title of a Thing is read-only.
pub record ExposedRef : Type 0 where
  pub servient : ℕ
  pub thing : ℕ
  pub title : String

-- `ExposedThing.__eq__`
unfoldable pub same_thing : ExposedRef → ExposedRef → Bool
same_thing a b = a.servient == b.servient && a.thing == b.thing

abbrev pub ThingSet : Type 0
ThingSet = Dict String ExposedRef

-- `exposed_thing in self._exposed_things.values()`
unfoldable pub contains : ExposedRef → ThingSet → Bool
unfolding same_thing
contains exposed_thing self = any (λ x. same_thing x exposed_thing) (values self)

unfoldable pub add : ExposedRef → ThingSet → Outcome ThingSet
add exposed_thing self =
    if Dict.contains exposed_thing.title self
    then raised (value_error "Duplicate Exposed Thing")
    else ok (Dict.set exposed_thing.title exposed_thing self)

-- the Thing's identity against `interaction.thing`
unfoldable pub find_by_interaction : ℕ → ThingSet → Option ExposedRef
find_by_interaction thing self = find? (λ x. x.thing == thing) (values self)

module _ (slugify : String → String) where
  abbrev pub is_match : String → ExposedRef → Bool
  is_match thing_title x = x.title == thing_title || slugify x.title == thing_title

  unfoldable pub find_by_thing_title : String → ThingSet → Option ExposedRef
  find_by_thing_title thing_title self = find? (is_match thing_title) (values self)

  abbrev pub remove_found : Option ExposedRef → ThingSet → Outcome ThingSet
  remove_found none self = raised (value_error "Unknown Exposed Thing")
  remove_found (some x) self =
      if not (Dict.contains x.title self)
      then raised (value_error "Unknown Exposed Thing")
      else ok (Dict.pop x.title self)

  unfoldable pub remove : String → ThingSet → Outcome ThingSet
  remove thing_title self = remove_found (find_by_thing_title thing_title self) self
