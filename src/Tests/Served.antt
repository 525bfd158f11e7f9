-- ===== src/Tests/Served.antt =====
-- The lamp behind HTTP and CoAP, and the clients that reach it.
use wotpy.Prelude.{
  ℕ, String, ◌≡◌, refl, Bool, true, false, Option, none, some, List, [], ◌∷◌, ◌++◌, ◌==◌, string_eq,
  nat_eq, Text, codes, if◌then◌else◌,
}
use wotpy.Outcome.{Outcome, ok, raised, type_error, user_error}
use wotpy.Dict
use wotpy.Dict.{Dict}
use wotpy.Json.{Json, str, integer, pos}
use wotpy.Thing.{one, many}
use wotpy.Exposed.{ExposedThing, action_invoke, property_read}
use wotpy.Clients.{
  FormDict, Urls, ThingDescription, get_property_forms, get_action_forms, pick_http_href,
  pick_coap_href,
}
use wotpy.Http.{Reply, written, empty_reply, property_get, property_put, action_post}
use wotpy.Http.Client.{
  HttpRequest, HttpLibrary, HttpClient, no_credential, plain_credential, http_write_property,
  http_read_property, http_invoke_action,
}
use wotpy.Http.Served.{
  IsDelivered, http_read_property-http_write_property, http_write_property-property_put,
}
use wotpy.Http.Invoked.{AreDelivered, integer_result, http_invoke_action-action_post}
use wotpy.Tests.Data.{slug, numbers, exposed_lamp, status}
use wotpy.Tests.Https.{codec, accept, served}
use wotpy.Tests.Wire.{number_of}

abbrev pub Lamps : Type 0
Lamps = List (ExposedThing numbers)

abbrev pub respond : Reply ℕ → Outcome ℕ
respond (written b) = ok b
respond empty_reply = ok 0
respond _ = raised (user_error "HTTP 4xx")

abbrev or_zero : Option ℕ → ℕ
or_zero none = 0
or_zero (some b) = b

-- A server of one property and one action, and a library that hands it each request
module _ (check : Option Text → String → Outcome Bool) where
  abbrev answered : HttpRequest ℕ → Lamps → Reply ℕ × Lamps
  answered request things =
      let checked = check request.authorization in
      let body = or_zero request.body in
      if request.method == "PUT"
      then property_put numbers codec checked "desk-lamp" "status" body things
      else if request.method == "POST"
      then action_post numbers codec checked "desk-lamp" "toggle" body things
      else property_get numbers codec checked "desk-lamp" "status" things

  abbrev pub http_library : HttpLibrary Lamps ℕ
  http_library = record {
    fetch = λ request things. (let (r, things') = answered request things in (respond r, things'));
    sign =
        λ request things. (ok (record request { authorization = some (codes "Basic x") }), things);
    drop_token = λ url things. things;
    loads = λ n. ok (integer (pos n));
    dumps = λ j. ok (number_of j);
  }

  pub delivered :
      IsDelivered numbers codec http_library check respond "http://h/p" "desk-lamp" "status"
  delivered = record {
    puts = λ request body things href method payload. rw (method, payload) refl;
    gets = λ request things href method. rw method refl;
    document = λ b. refl;
  }

abbrev pub http_urls : Urls
http_urls = record {
  scheme =
      λ url. if url == "http://h/p" then "http" else if url == "coap://h/p" then "coap" else "";
  urljoin = λ base href. href;
}

abbrev pub forms : List FormDict
forms =
    (record { href = "http://h/p"; op = one "readproperty" })
    ∷ (record { href = "coap://h/p"; op = many ("readproperty" ∷ "writeproperty" ∷ []) })
    ∷ []

abbrev pub td : ThingDescription
td = record {
  base = none;
  properties = ("status", forms) ∷ [];
  actions = ("toggle", forms) ∷ [];
  events = [];
}

pub has_forms : get_property_forms td "status" ≡ ok forms
unfolding get_property_forms Dict.get
has_forms = refl

pub has_action_forms : get_action_forms td "toggle" ≡ ok forms
unfolding get_action_forms Dict.get
has_action_forms = refl

pub picks_http : pick_http_href http_urls none forms none ≡ some "http://h/p"
unfolding pick_http_href wotpy.Clients.pick_href wotpy.Clients.is_scheme_form
    wotpy.Clients.resolve_uri
picks_http = refl

abbrev pub open_client : HttpClient
open_client = record { credential = no_credential; connect_timeout = 10; request_timeout = 60 }

abbrev pub plain_text : Json → String
plain_text (str s) = s
plain_text _ = "?"

abbrev pub anyone : Option Text → String → Outcome Bool
anyone header = accept

http_read_property-http_write_property_example :
    let (sent', things) =
      http_write_property
        (http_library anyone)
        http_urls
        open_client
        plain_text
        td
        "status"
        (integer (pos 4))
        none
        ([] ++ exposed_lamp ∷ []) in
    (sent' ≡ ok tt)
    × ((http_read_property
          (http_library anyone)
          http_urls
          open_client
          plain_text
          td
          "status"
          none
          things).0
        ≡ ok (integer (pos 4)))
http_read_property-http_write_property_example =
    http_read_property-http_write_property numbers codec (http_library anyone) anyone http_urls
      open_client plain_text respond td forms "http://h/p" "desk-lamp" "status" (delivered anyone)
      has_forms picks_http "Status" [] [] exposed_lamp status (integer (pos 4)) (integer (pos 4)) 4
      4 4 0 none none refl served refl refl refl refl refl

abbrev with_header : Option Text → String → Outcome Bool
with_header none title = ok false
with_header (some header) title = ok true

abbrev signing_client : HttpClient
signing_client = record open_client { credential = plain_credential }

http_write_property-property_put_example :
    http_write_property
      (http_library with_header)
      http_urls
      signing_client
      plain_text
      td
      "status"
      (integer (pos 4))
      none
      ([] ++ exposed_lamp ∷ [])
    ≡ (raised (user_error "HTTP 4xx"), [] ++ exposed_lamp ∷ [])
http_write_property-property_put_example =
    http_write_property-property_put numbers codec (http_library with_header) with_header http_urls
      signing_client plain_text respond td forms "http://h/p" "desk-lamp" "status"
      (delivered with_header) has_forms picks_http [] [] exposed_lamp (integer (pos 4)) 4 none
      (user_error "HTTP 4xx") tt refl refl refl refl

actions_delivered :
    AreDelivered numbers codec
      (http_library anyone)
      accept
      respond
      "http://h/p"
      "desk-lamp"
      "toggle"
actions_delivered = record {
  posts = λ request body things href method payload. rw (method, payload) refl;
  document = λ b. refl;
}

-- The lamp with a handler of its action, which returns the number 7
abbrev handled_lamp : ExposedThing numbers
handled_lamp = record exposed_lamp { handlers = λ k. (12, 7) ∷ [] }

abbrev toggled : ExposedThing numbers
toggled = (action_invoke numbers slug "toggle" 4 handled_lamp).1

toggles : action_invoke numbers slug "toggle" 4 handled_lamp ≡ (ok 7, toggled)
unfolding action_invoke wotpy.Exposed.normalized wotpy.Exposed.find_normalized_name
    wotpy.Exposed.invoke_action wotpy.Exposed.get_handler Dict.get
toggles = refl

http_invoke_action-action_post_example :
    http_invoke_action
      (http_library anyone)
      http_urls
      open_client
      plain_text
      td
      "toggle"
      (integer (pos 4))
      none
      ([] ++ handled_lamp ∷ [])
    ≡ (raised (type_error "argument is not iterable"), [] ++ toggled ∷ [])
http_invoke_action-action_post_example =
    http_invoke_action-action_post numbers codec (http_library anyone) accept http_urls open_client
      plain_text respond td forms "http://h/p" "desk-lamp" "toggle" actions_delivered
      has_action_forms picks_http refl [] [] handled_lamp toggled (integer (pos 4))
      (integer (pos 7)) 4 7 4 7 none (integer_result (pos 7)) tt refl refl refl refl toggles refl
      refl
