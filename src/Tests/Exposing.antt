-- ===== src/Tests/Exposing.antt =====
-- The exposed lamp: reads, writes, events and new properties.
use wotpy.Prelude.{
  ℕ, String, ◌≡◌, refl, true, none, some, List, [], ◌∷◌, ◌++◌, if◌then◌else◌, string_eq, nat_eq,
}
use wotpy.Outcome.{ok}
use wotpy.Dict
use wotpy.Thing.{Thing, Interaction, property, find_interaction, new_interaction, add_interaction}
use wotpy.Thing.WellFormed.{IsWellFormed}
use wotpy.Exposed.{
  Platform, ExposedThing, EmittedEvent, payload, property_change, property_change_init,
  td_change_init, property_type, added_method, description_change, read_property, write_property,
  property_change_filter, add_property,
}
use wotpy.Exposed.Properties.{read_property-write_property, change_event}
use wotpy.Exposed.Streams.{deliver, run_writes, observed, run_writes_observed}
use wotpy.Exposed.Editing.{add_property_lem}
use wotpy.Tests.Data.{slug, numbers, undescribed, exposed_lamp, status, broken, plain, whole_lamp}

pub whole_lamp-IsWellFormed : IsWellFormed slug whole_lamp
whole_lamp-IsWellFormed = record {
  properties_Keyed = ((refl, refl, refl), tt);
  actions_Keyed = ((refl, refl, refl), tt);
  events_Keyed = ((refl, refl, refl), tt);
  distinct = ((refl, (refl, tt)), ((refl, tt), (tt, tt)));
}

pub status_there : Dict.get "Status" whole_lamp.properties ≡ some status
unfolding Dict.get
status_there = refl

pub no_handler : Dict.get {K = ℕ} {V = ℕ} 11 [] ≡ none
unfolding Dict.get
no_handler = refl

read_property-write_property_example :
    (read_property numbers slug "Status" (write_property numbers slug "Status" 5 exposed_lamp).1).0
    ≡ (if nat_eq.beq 11 11 then ok 5 else (read_property numbers slug "Status" exposed_lamp).0)
read_property-write_property_example =
    read_property-write_property numbers slug exposed_lamp status status "Status" "Status" 5
      whole_lamp-IsWellFormed status_there status_there no_handler no_handler

-- A write handler that writes another property too, as that of the served counter of the coffee machine
abbrev maintained : Platform
maintained = record numbers {
  call = λ h args d w. (
    ok h,
    record {
      property_values = Dict.set 11 1001 d;
      emitted =
          (record { init = property_change_init "maintenanceNeeded" 1; name = property_change })
          ∷ [];
      world = w;
    },
  );
}

abbrev coffee_machine : ExposedThing maintained
coffee_machine = record {
  thing = whole_lamp;
  property_values = [];
  handlers = λ k. (11, 5) ∷ [];
  handlers_global = λ k. none;
  events_stream = [];
  world = 0;
}

abbrev two_writes : List (String × ℕ)
two_writes = ("Status", 1001) ∷ ("missing", 2) ∷ []

run_writes_observed_example :
    (added : List (EmittedEvent ℕ)) × ((run_writes maintained slug two_writes
        coffee_machine).events_stream
      ≡ coffee_machine.events_stream ++ added)
    × (deliver maintained slug (property_change_filter maintained "maintenanceNeeded") added
        ≡ observed maintained slug "maintenanceNeeded" two_writes coffee_machine)
run_writes_observed_example =
    run_writes_observed maintained slug "maintenanceNeeded" two_writes coffee_machine
      (λ h args d w. (tt, tt))

maintenance_observed :
    observed maintained slug "maintenanceNeeded" two_writes coffee_machine
    ≡ change_event maintained slug "maintenanceNeeded" 1 ∷ []
unfolding write_property Dict.get Dict.set
maintenance_observed = refl

broken_found : find_interaction slug "broken" whole_lamp ≡ some broken
unfolding find_interaction
broken_found = refl

abbrev broken_event : EmittedEvent ℕ
broken_event = record { init = payload 3; name = "broken" }

-- An event whose URL name is another text.
abbrev alarm : Interaction
alarm = record broken { name = "Status" }

abbrev alarm_lamp : ExposedThing numbers
alarm_lamp = record exposed_lamp {
  thing = record whole_lamp { properties = []; events = ("Status", alarm) ∷ [] };
}

alarm_found : find_interaction slug "status" alarm_lamp.thing ≡ some alarm
unfolding find_interaction
alarm_found = refl

alarm_there : Dict.contains "Status" alarm_lamp.thing.events ≡ true
unfolding Dict.contains
alarm_there = refl

abbrev level : Interaction
level = record {
  oid = 14;
  thing = 1;
  name = "level";
  kind = property;
  init_dict = plain;
  td_forms = [];
  autogenerated_forms = [];
}

abbrev level_lamp : Thing
level_lamp = record whole_lamp { properties = ("Status", status) ∷ ("level", level) ∷ [] }

abbrev level_event : EmittedEvent ℕ
level_event = record {
  init = td_change_init property_type added_method "level" (some 7);
  name = description_change;
}

abbrev with_level : ExposedThing numbers
with_level = record exposed_lamp {
  thing = level_lamp;
  property_values = (14, 9) ∷ [];
  events_stream = level_event ∷ [];
}

level_added : add_property numbers slug 14 "level" plain [] 9 exposed_lamp ≡ (ok tt, with_level)
unfolding add_property new_interaction add_interaction find_interaction Dict.set
    wotpy.Names.is_valid_safe_name wotpy.Names.is_safe_char wotpy.Names.is_upper
    wotpy.Names.is_lower
level_added = refl

no_level_handler : Dict.get {K = ℕ} {V = ℕ} 14 [] ≡ none
unfolding Dict.get
no_level_handler = refl

add_property_lem_example :
    IsWellFormed slug level_lamp
    × ((i : Interaction) × (find_interaction slug "level" level_lamp ≡ some i) × (i.oid ≡ 14))
    × (read_property numbers slug "level" with_level ≡ (ok 9, with_level))
    × ((d : ℕ) × (with_level.events_stream
          ≡ exposed_lamp.events_stream
            ++ (record {
              init = td_change_init property_type added_method "level" (some d);
              name = description_change;
            })
              ∷ []))
add_property_lem_example =
    add_property_lem numbers slug exposed_lamp with_level 14 "level" plain [] 9
      whole_lamp-IsWellFormed no_level_handler level_added

abbrev mute_lamp : ExposedThing undescribed
mute_lamp = record {
  thing = whole_lamp;
  property_values = [];
  handlers = λ k. [];
  handlers_global = λ k. none;
  events_stream = [];
  world = 0;
}

level_built : new_interaction 14 1 "level" property plain [] ≡ ok level
unfolding new_interaction wotpy.Names.is_valid_safe_name wotpy.Names.is_safe_char
    wotpy.Names.is_upper wotpy.Names.is_lower
level_built = refl

level_accepted : add_interaction slug level whole_lamp ≡ ok level_lamp
unfolding add_interaction find_interaction Dict.set
level_accepted = refl
