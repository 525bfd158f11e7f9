-- ===== src/Tests/Things.antt =====
-- Names, interactions, forms and sets of Things.
use wotpy.Prelude.{◌≡◌, refl, none, some, keep, [], ◌∷◌, Text, codes, if◌then◌else◌, string_eq}
use wotpy.Outcome.{ok}
use wotpy.Dict
use wotpy.Thing.{
  Interaction, interactions, is_match, find_interaction, add_interaction, remove_interaction,
  add_form,
}
use wotpy.Thing.WellFormed.{IsWellFormed, add_interaction-IsWellFormed, find_interaction-add}
use wotpy.Thing.Find.{find_without, other_than, remove_interaction_lem}
use wotpy.ThingSet.{ThingSet, find_by_thing_title, remove}
use wotpy.Tests.Data.{
  slug, no_hash, lamp, whole_lamp, status, broken, http_form, desk_lamp, other_lamp,
}

abbrev multiple_of : Text
multiple_of = codes "multipleOf"

pub lamp-IsWellFormed : IsWellFormed slug lamp
lamp-IsWellFormed = record {
  properties_Keyed = ((refl, refl, refl), tt);
  actions_Keyed = ((refl, refl, refl), tt);
  events_Keyed = tt;
  distinct = ((refl, tt), (tt, tt));
}

broken_added : add_interaction slug broken lamp ≡ ok whole_lamp
unfolding add_interaction find_interaction Dict.set
broken_added = refl

add_interaction-IsWellFormed_example : IsWellFormed slug whole_lamp
add_interaction-IsWellFormed_example =
    add_interaction-IsWellFormed slug broken lamp whole_lamp lamp-IsWellFormed broken_added

find_interaction-add_example :
    find_interaction slug "broken" whole_lamp
    ≡ (if is_match slug "broken" broken then some broken else find_interaction slug "broken" lamp)
find_interaction-add_example =
    find_interaction-add slug broken lamp whole_lamp "broken" lamp-IsWellFormed broken_added

-- Removed by its URL name, and looked for by its name
remove_interaction_lem_example :
    IsWellFormed slug (remove_interaction slug "status" lamp)
    × (find_interaction slug "Status" (remove_interaction slug "status" lamp)
        ≡ find_without slug "Status"
            (find_interaction slug "status" lamp)
            (find_interaction slug "Status" lamp))
    × (interactions (remove_interaction slug "status" lamp)
        ≡ (elim (find_interaction slug "status" lamp) [
          | none ↦ interactions lamp
          | some y ↦ keep (other_than y.name) (interactions lamp)
        ]))
remove_interaction_lem_example =
    remove_interaction_lem slug lamp "status" "Status" lamp-IsWellFormed

status_found : find_interaction slug "status" lamp ≡ some status
unfolding find_interaction
status_found = refl

abbrev status_with_form : Interaction
status_with_form = record status { autogenerated_forms = http_form ∷ [] }

form_added : add_form no_hash http_form status ≡ ok status_with_form
unfolding add_form
form_added = refl

abbrev one_lamp : ThingSet
one_lamp = ("Desk Lamp", desk_lamp) ∷ []

abbrev two_lamps : ThingSet
two_lamps = ("Desk Lamp", desk_lamp) ∷ ("desk-lamp", other_lamp) ∷ []

other_added : wotpy.ThingSet.add other_lamp one_lamp ≡ ok two_lamps
unfolding wotpy.ThingSet.add Dict.contains Dict.set
other_added = refl

lamp_found : find_by_thing_title slug "desk-lamp" one_lamp ≡ some desk_lamp
unfolding find_by_thing_title
lamp_found = refl
