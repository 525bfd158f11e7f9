-- ===== src/Tests/Reached.antt =====
-- The lamp behind CoAP, and a consumed Thing.
use wotpy.Prelude.{
  ℕ, String, ◌≡◌, refl, Bool, true, false, Option, none, some, List, [], ◌∷◌, ◌++◌, ◌==◌, string_eq,
  nat_eq, Text, codes, if◌then◌else◌,
}
use wotpy.Outcome.{Outcome, ok}
use wotpy.Dict
use wotpy.Dict.{Dict}
use wotpy.Json.{integer, pos}
use wotpy.Clients.{pick_coap_href}
use wotpy.Http.ReadBack.{IsServed}
use wotpy.Coap.Resources.{CoapReply, content, changed, property_render_get, property_render_put}
use wotpy.Coap.ReadBack.{AsksFor}
use wotpy.Coap.Client.{
  CoapMessage, CoapResponse, CoapLibrary, coap_write_property, coap_read_property,
}
use wotpy.Coap.Served.{ReachesResource, coap_read_property-coap_write_property}
use wotpy.Consumed.{ConsumedThing, consumed_property_write, consumed_property_read}
use wotpy.Consumed.Objects.{consumed_property_read-consumed_property_write}
use wotpy.Consumed.Bindings.{http_client, http_client-ReadsBack}
use wotpy.Tests.Data.{slug, numbers, exposed_lamp, status}
use wotpy.Tests.Exposing.{whole_lamp-IsWellFormed, status_there, no_handler}
use wotpy.Tests.Https.{codec, accept, served}
use wotpy.Tests.Wire.{number_of}
use wotpy.Tests.Served.{
  Lamps, respond, http_library, http_urls, forms, td, open_client, plain_text, anyone, delivered,
  has_forms, picks_http,
}

abbrev check : List Text → String → Outcome Bool
check options = accept

abbrev query : Dict String String
query = ("thing", "desk-lamp") ∷ ("name", "status") ∷ []

abbrev response_of : CoapReply ℕ → CoapResponse ℕ
response_of (content b) = record { is_successful = true; payload = b }
response_of changed = record { is_successful = true; payload = 0 }
response_of _ = record { is_successful = false; payload = 0 }

abbrev or_zero : Option ℕ → ℕ
or_zero none = 0
or_zero (some b) = b

abbrev rendered : CoapMessage ℕ → Lamps → CoapReply ℕ × Lamps
rendered msg things =
    if msg.code == "PUT"
    then property_render_put numbers codec check
        (record { query = query; payload = or_zero msg.payload; options = msg.options }) things
    else property_render_get numbers codec check
        (record { query = query; payload = 0; options = msg.options }) things

abbrev coap_library : CoapLibrary Lamps ℕ
coap_library = record {
  request = λ msg timeout things.
      (let (r, things') = rendered msg things in (ok (some (response_of r)), things'));
  loads = λ n. ok (integer (pos n));
  dumps = λ j. ok (number_of j);
  decode = λ n. "error";
}

reached : ReachesResource numbers codec coap_library check response_of "coap://h/p" query 0
reached = record {
  puts = λ msg body timeout things uri code payload. rw (code, payload) refl;
  gets = λ msg timeout things uri code. rw code refl;
  document = λ b. refl;
  success = refl;
}

abbrev header : Text
header = codes "Basic x"

picks_write : pick_coap_href http_urls none forms (some "writeproperty") ≡ some "coap://h/p"
unfolding pick_coap_href wotpy.Clients.pick_href wotpy.Clients.is_scheme_form
    wotpy.Clients.resolve_uri
picks_write = refl

picks_read : pick_coap_href http_urls none forms (some "readproperty") ≡ some "coap://h/p"
unfolding pick_coap_href wotpy.Clients.pick_href wotpy.Clients.is_scheme_form
    wotpy.Clients.resolve_uri
picks_read = refl

asks :
    AsksFor numbers codec "desk-lamp" "Status"
      (record { query = query; payload = 4; options = header ∷ [] })
unfolding Dict.get
asks = record { thing = refl; name = refl; thing_given = refl; name_given = refl }

coap-IsServed : IsServed numbers codec accept "desk-lamp" "Status" "Status" [] exposed_lamp status
coap-IsServed = record {
  others = tt;
  named = refl;
  valid = refl;
  well_formed = whole_lamp-IsWellFormed;
  held = status_there;
  same_url_name = refl;
  writes = refl;
  no_update = no_handler;
  no_retrieve = no_handler;
}

coap_read_property-coap_write_property_example :
    let (sent, things) =
      coap_write_property coap_library http_urls
        (some (ok header))
        td
        "status"
        (integer (pos 4))
        none
        ([] ++ exposed_lamp ∷ []) in
    (sent ≡ ok tt)
    × ((coap_read_property coap_library http_urls (some (ok header)) td "status" none things).0
        ≡ ok (integer (pos 4)))
coap_read_property-coap_write_property_example =
    coap_read_property-coap_write_property numbers codec coap_library check http_urls header
      response_of td forms "coap://h/p" "status" query 0 reached has_forms picks_write picks_read
      "desk-lamp" "Status" [] [] exposed_lamp status (integer (pos 4)) (integer (pos 4)) 4 4 4 none
      none asks coap-IsServed refl refl refl refl

abbrev thing : ConsumedThing Lamps
thing = record {
  select = λ name. ok (http_client (http_library anyone) http_urls open_client plain_text td);
  properties = "status" ∷ [];
  actions = "toggle" ∷ [];
}

consumed_property_read-consumed_property_write_example :
    let (sent, things) =
      consumed_property_write thing slug "Status"
        (integer (pos 4))
        none
        none
        ([] ++ exposed_lamp ∷ []) in
    (sent ≡ ok tt)
    × ((consumed_property_read thing slug "status" none none things).0 ≡ ok (integer (pos 4)))
consumed_property_read-consumed_property_write_example =
    consumed_property_read-consumed_property_write slug thing
      (http_client (http_library anyone) http_urls open_client plain_text td) [] [] "status"
      "Status" "status" (integer (pos 4)) (integer (pos 4)) ([] ++ exposed_lamp ∷ []) none none none
      none refl tt refl refl refl
      (http_client-ReadsBack numbers codec (http_library anyone) anyone http_urls open_client
        plain_text respond td forms "http://h/p" "desk-lamp" "status" (delivered anyone) has_forms
        picks_http "Status" [] [] exposed_lamp status (integer (pos 4)) (integer (pos 4)) 4 4 4 0
        refl served refl refl refl refl refl)
