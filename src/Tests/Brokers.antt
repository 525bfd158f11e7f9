-- ===== src/Tests/Brokers.antt =====
-- The exposed lamp behind a broker.
use wotpy.Prelude.{ℕ, ◌≡◌, refl, false, [], ◌∷◌, ◌++◌, codes, text_eq, if◌then◌else◌}
use wotpy.Outcome.{ok, raised, value_error}
use wotpy.Dict
use wotpy.Json.{Json, str, obj, integer, pos, Fields, end, field}
use wotpy.Exposed.{
  ExposedThing, property_read, normalized, find_normalized_name, read_property,
  default_retrieve_property_handler, find_or_raise, handle_write_property, write_property,
  default_update_property_handler,
}
use wotpy.Thing.{find_interaction}
use wotpy.Broker.{
  Wire, Binding, dumpable, document, Handler, handle_property, handle_action, ack_topic, is_true,
  invoke_for,
}
use wotpy.Broker.Requests.{IsAddressed, request, handle_property-write}
use wotpy.Broker.Invocations.{
  IsInvoked, invocation, said, ending, result_messages, handle_action_lem,
}
use wotpy.Mqtt.{mqtt_binding}
use wotpy.Tests.Data.{slug, numbers, exposed_lamp, status, toggle}

abbrev number_of : Json → ℕ
number_of (integer (pos n)) = n
number_of _ = 0

abbrev pub wire : Wire numbers
wire = record {
  Data = Json;
  loads = document;
  dumps = λ j. j;
  json_of = λ n. ok (dumpable (integer (pos n)));
  json_of_init = λ e. raised (value_error "Object is not JSON serializable");
  value_attr = λ v. ok v;
  value_of = number_of;
  is_zero = λ s. false;
  slugify = slug;
}

abbrev pub binding : Binding
binding = mqtt_binding (codes "wotpy")

abbrev pub lamps : Handler numbers wire
lamps = record { exposed_things = exposed_lamp ∷ []; queue = [] }

abbrev read_fields : Fields
read_fields = field "action" (str "read") end

addressed : IsAddressed numbers wire binding lamps [] [] exposed_lamp status
unfolding mqtt_binding
addressed = record {
  wildcard_part = refl;
  servient_part = refl;
  thing_part = refl;
  property_part = refl;
  things = refl;
  others = tt;
  found = refl;
}

status_read : property_read numbers slug "Status" exposed_lamp ≡ (ok 0, exposed_lamp)
unfolding property_read normalized find_normalized_name read_property
    default_retrieve_property_handler find_or_raise find_interaction Dict.get
status_read = refl

abbrev write_fields : Fields
write_fields =
    field "action" (str "write") (field "value" (integer (pos 4)) (field "ack" (str "a1") end))

abbrev written_lamp : ExposedThing numbers
written_lamp = (handle_write_property numbers slug "Status" 4 exposed_lamp).1

status_written : handle_write_property numbers slug "Status" 4 exposed_lamp ≡ (ok tt, written_lamp)
unfolding write_property default_update_property_handler handle_write_property find_normalized_name
    find_or_raise find_interaction Dict.get Dict.set
status_written = refl

handle_property-write_example :
    handle_property numbers wire binding 9
      (request numbers wire binding exposed_lamp status (obj write_fields))
      lamps
    ≡ (
      ok tt,
      record lamps {
        exposed_things = [] ++ written_lamp ∷ [];
        queue =
            lamps.queue
            ++ (if is_true wire.is_zero (str "a1")
                then (record {
                  topic = ack_topic binding.servient_id (codes "desk-lamp") (codes "status");
                  data_ = obj (field "ack" (str "a1") end);
                  qos = binding.qos_rw;
                })
                  ∷ []
                else []);
      },
    )
handle_property-write_example =
    handle_property-write numbers wire binding 9 lamps [] [] exposed_lamp written_lamp status
      (obj write_fields) write_fields (integer (pos 4)) (str "a1") addressed refl refl refl refl
      status_written

abbrev invoke_fields : Fields
invoke_fields = field "id" (str "i1") (field "input" (integer (pos 2)) end)

pub invoked : IsInvoked numbers wire binding lamps [] [] exposed_lamp toggle
unfolding mqtt_binding
invoked = record {
  wildcard_part = refl;
  servient_part = refl;
  thing_part = refl;
  action_part = refl;
  things = refl;
  others = tt;
  found = refl;
}

handle_action_lem_example :
    let r = (invoke_for numbers wire invoke_fields toggle exposed_lamp).0 in
    handle_action numbers wire binding 9
      (invocation numbers wire binding exposed_lamp toggle (obj invoke_fields))
      lamps
    ≡ (
      ending numbers wire r,
      record lamps {
        exposed_things = [] ++ (invoke_for numbers wire invoke_fields toggle exposed_lamp).1 ∷ [];
        queue =
            lamps.queue
            ++ result_messages numbers wire binding 9 exposed_lamp toggle
                (str "i1")
                (said numbers wire r);
      },
    )
handle_action_lem_example =
    handle_action_lem numbers wire binding 9 lamps [] [] exposed_lamp toggle (obj invoke_fields)
      invoke_fields invoked refl
