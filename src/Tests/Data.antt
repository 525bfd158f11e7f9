-- ===== src/Tests/Data.antt =====
-- The data of the tests: a lamp with three interactions, an application, and a servient.
use wotpy.Prelude.{
  ℕ, ◌+◌, String, true, false, Option, none, some, [], ◌∷◌, ◌==◌, string_eq, if◌then◌else◌,
}
use wotpy.Outcome.{ok, raised, user_error, value_error}
use wotpy.Thing.{Op, unset, Form, Fragment, Interaction, Thing, property, action, event}
use wotpy.ThingSet.{ExposedRef}
use wotpy.Exposed.{Platform, ExposedThing}
use wotpy.Servient.{Server, Client, Servient}

abbrev pub slug : String → String
slug s = if s == "Status" then "status" else if s == "Desk Lamp" then "desk-lamp" else s

abbrev pub no_hash : Option String → String → String → Op → ℕ
no_hash protocol href content_type op = 0

abbrev pub plain : Fragment
plain = record { read_only = false; observable = true }

abbrev pub status : Interaction
status = record {
  oid = 11;
  thing = 1;
  name = "Status";
  kind = property;
  init_dict = plain;
  td_forms = [];
  autogenerated_forms = [];
}

abbrev pub toggle : Interaction
toggle = record {
  oid = 12;
  thing = 1;
  name = "toggle";
  kind = action;
  init_dict = plain;
  td_forms = [];
  autogenerated_forms = [];
}

abbrev pub broken : Interaction
broken = record {
  oid = 13;
  thing = 1;
  name = "broken";
  kind = event;
  init_dict = plain;
  td_forms = [];
  autogenerated_forms = [];
}

abbrev pub empty_lamp : Thing
empty_lamp = record {
  oid = 1;
  title = "Desk Lamp";
  base = none;
  properties = [];
  actions = [];
  events = [];
}

abbrev pub lamp : Thing
lamp = record {
  oid = 1;
  title = "Desk Lamp";
  base = none;
  properties = ("Status", status) ∷ [];
  actions = ("toggle", toggle) ∷ [];
  events = [];
}

abbrev pub whole_lamp : Thing
whole_lamp = record {
  oid = 1;
  title = "Desk Lamp";
  base = none;
  properties = ("Status", status) ∷ [];
  actions = ("toggle", toggle) ∷ [];
  events = ("broken", broken) ∷ [];
}

-- Numbers as values; handlers are numbers that are added to the world.
abbrev pub numbers : Platform
numbers = record {
  Value = ℕ;
  null = 0;
  name_of = λ v. raised (user_error "int has no name");
  describe = λ t. ok 7;
  World = ℕ;
  Handler = ℕ;
  call = λ h args d w. (ok h, record { property_values = d; emitted = []; world = w + h });
}

-- The same application, where no description is valid.
abbrev pub undescribed : Platform
undescribed = record numbers { describe = λ t. raised (value_error "invalid TD") }

abbrev pub exposed_lamp : ExposedThing numbers
exposed_lamp = record {
  thing = whole_lamp;
  property_values = [];
  handlers = λ k. [];
  handlers_global = λ k. none;
  events_stream = [];
  world = 0;
}

abbrev pub desk_lamp : ExposedRef
desk_lamp = record { servient = 1; thing = 1; title = "Desk Lamp" }

abbrev pub other_lamp : ExposedRef
other_lamp = record { servient = 1; thing = 2; title = "desk-lamp" }

abbrev pub http_form : Form
http_form = record {
  oid = 21;
  interaction = 11;
  protocol = some "HTTP";
  href = "http://localhost/lamp/status";
  content_type = "application/json";
  op = unset;
}

abbrev pub http : Server
http = record {
  protocol = "HTTP";
  exposed_thing_set = [];
  build_forms = λ hostname i. http_form ∷ [];
  build_base_url = λ hostname t. "http://localhost";
}

abbrev pub http_exposing : Server
http_exposing = record http { exposed_thing_set = ("Desk Lamp", desk_lamp) ∷ [] }

abbrev pub http_client : Client
http_client = record { protocol = "HTTP"; supports = λ name. true }

abbrev pub idle : Servient
idle = record {
  hostname = "localhost";
  servers = ("HTTP", http) ∷ [];
  clients = [];
  catalogue_port = none;
  catalogue_server = none;
  exposed_thing_set = ("Desk Lamp", desk_lamp) ∷ [];
  is_running = false;
  create_default_forms = true;
  enabled_titles = [];
  credential_store = [];
  things = λ n. empty_lamp;
}

-- With the lamp enabled.
abbrev pub enabled : Servient
enabled = record idle { servers = ("HTTP", http_exposing) ∷ []; enabled_titles = "Desk Lamp" ∷ [] }

abbrev pub running : Servient
running = record idle { is_running = true }
