-- ===== src/Tests/Servients.antt =====
-- A servient with one server and one Thing.
use wotpy.Prelude.{◌≡◌, ◌≤◌, refl, inl, true, false, some, [], ◌∷◌, arith, string_eq}
use wotpy.Outcome.{ok}
use wotpy.Dict
use wotpy.Thing.{Interaction, Form, property, add_form, forms}
use wotpy.ThingSet.{ExposedRef, find_by_thing_title, remove}
use wotpy.Servient.{
  Server, Client, Servient, mem, add_server, remove_server, add_client, remove_client,
  set_catalogue_port, disable_td_catalogue, enable_exposed_thing, disable_exposed_thing,
  remove_exposed_thing, has_protocol, clean_protocol, add_built_forms, visit_thing,
  clean_protocol_forms, add_interaction_forms, regenerate_server_forms, server_add, server_remove,
  update,
}
use wotpy.Servient.Exposes.{InSync, IsPlain}
use wotpy.Servient.Sync.{enable_exposed_thing-InSync, disable_exposed_thing-InSync}
use wotpy.Servient.Removal.{remove_exposed_thing_title}
use wotpy.Servient.Select.{
  TdNames, protocol_preference, rank, default_select_client, default_select_client_best,
}
use wotpy.Tests.Data.{
  slug, no_hash, status, desk_lamp, http_form, http, http_exposing, http_client, idle, enabled,
  empty_lamp,
}

abbrev ws : Server
ws = record http { protocol = "WEBSOCKETS" }

idle-InSync : InSync idle
unfolding Dict.contains
idle-InSync = (record { keyed = tt; exposed = λ t. refl }, tt)

enabled-InSync : InSync enabled
unfolding Dict.contains
enabled-InSync = (record { keyed = (refl, tt); exposed = λ t. refl }, tt)

abbrev lamp_on : Servient
lamp_on = record enabled { things = update 1 empty_lamp (update 1 empty_lamp idle.things) }

abbrev lamp_off : Servient
lamp_off = record idle { things = update 1 empty_lamp enabled.things }

lamp_enabled : enable_exposed_thing slug no_hash "Desk Lamp" idle ≡ (ok tt, lamp_on)
unfolding enable_exposed_thing find_by_thing_title server_add wotpy.ThingSet.add
    wotpy.ThingSet.contains regenerate_server_forms clean_protocol_forms add_interaction_forms
    visit_thing Dict.contains Dict.set Dict.get
lamp_enabled = refl

enable_exposed_thing-InSync_example : InSync lamp_on
enable_exposed_thing-InSync_example =
    enable_exposed_thing-InSync slug no_hash idle lamp_on "Desk Lamp" idle-InSync lamp_enabled

lamp_disabled : disable_exposed_thing slug no_hash "Desk Lamp" enabled ≡ (ok tt, lamp_off)
unfolding disable_exposed_thing find_by_thing_title server_remove remove wotpy.ThingSet.contains
    regenerate_server_forms clean_protocol_forms add_interaction_forms visit_thing Dict.contains
    Dict.pop
lamp_disabled = refl

lamp_known : find_by_thing_title slug "Desk Lamp" enabled.exposed_thing_set ≡ some desk_lamp
unfolding find_by_thing_title
lamp_known = refl

lamp_IsPlain : IsPlain slug "Desk Lamp" http_exposing
unfolding find_by_thing_title
lamp_IsPlain y h = ground arith

disable_exposed_thing-InSync_example : InSync lamp_off
disable_exposed_thing-InSync_example =
    disable_exposed_thing-InSync slug no_hash enabled lamp_off "Desk Lamp" desk_lamp enabled-InSync
      lamp_known (lamp_IsPlain, tt) lamp_disabled

lamp_by_url : find_by_thing_title slug "desk-lamp" enabled.exposed_thing_set ≡ some desk_lamp
unfolding find_by_thing_title
lamp_by_url = refl

abbrev lamp_gone : Servient
lamp_gone = record lamp_off { exposed_thing_set = [] }

lamp_removed : remove_exposed_thing slug no_hash "Desk Lamp" enabled ≡ (ok tt, lamp_gone)
unfolding remove_exposed_thing disable_exposed_thing find_by_thing_title server_remove remove
    wotpy.ThingSet.contains regenerate_server_forms clean_protocol_forms add_interaction_forms
    visit_thing Dict.contains Dict.pop
lamp_removed = refl

remove_exposed_thing_title_example :
    InSync lamp_gone
    × (mem "Desk Lamp" lamp_gone.enabled_titles ≡ false)
    × (Dict.contains "Desk Lamp" lamp_gone.exposed_thing_set ≡ false)
remove_exposed_thing_title_example =
    remove_exposed_thing_title slug no_hash enabled lamp_gone desk_lamp enabled-InSync (refl, tt)
      lamp_known (lamp_IsPlain, tt) lamp_removed

abbrev lamp_names : TdNames
lamp_names = record { properties = "Status" ∷ []; actions = []; events = [] }

abbrev mqtt_client : Client
mqtt_client = record { protocol = "MQTT"; supports = λ name. true }

status_is_property : wotpy.Servient.Select.interaction_type lamp_names "Status" ≡ some property
unfolding wotpy.Servient.Select.interaction_type
status_is_property = refl

default_select_client_best_example :
    (c : Client) × (default_select_client (http_client ∷ mqtt_client ∷ []) lamp_names "Status"
      ≡ ok c)
    × (c.supports "Status" ≡ true)
    × (rank c.protocol (protocol_preference property) ≤ rank "HTTP" (protocol_preference property))
default_select_client_best_example =
    default_select_client_best (http_client ∷ mqtt_client ∷ []) lamp_names "Status" property
      http_client ((refl, tt), (tt, tt)) status_is_property (inl refl) refl refl

abbrev old_form : Form
old_form = record http_form { oid = 20; href = "http://localhost/old" }

abbrev status_before : Interaction
status_before = record status { autogenerated_forms = old_form ∷ [] }

abbrev status_after : Interaction
status_after = record status { autogenerated_forms = http_form ∷ [] }

status_rebuilt :
    add_built_forms no_hash "localhost" http (clean_protocol "HTTP" status_before)
    ≡ (ok tt, status_after)
unfolding add_built_forms clean_protocol add_form forms wotpy.Thing.remove_form
status_rebuilt = refl

lamp_in_set : wotpy.ThingSet.contains desk_lamp idle.exposed_thing_set ≡ true
unfolding wotpy.ThingSet.contains
lamp_in_set = refl
