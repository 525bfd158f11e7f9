-- ===== src/Tests/Https.antt =====
-- The exposed lamp behind HTTP, and credentials.
use wotpy.Prelude.{
  ℕ, String, ◌≡◌, refl, Bool, true, false, some, [], ◌∷◌, ◌++◌, Text, codes, map, arith, string_eq,
}
use wotpy.Outcome.{Outcome, ok}
use wotpy.Dict
use wotpy.Http.{
  Codec, property_get, property_put, action_post, Library, Credentials, http_build_forms,
}
use wotpy.Http.Safety.{AreRefusing, requests-AreRefusing}
use wotpy.Http.ReadBack.{IsServed}
use wotpy.Http.Addresses.{route_of_form, routes_for, route-http_build_forms}
use wotpy.Tests.Data.{slug, numbers, exposed_lamp, status}
use wotpy.Tests.Exposing.{whole_lamp-IsWellFormed, status_there, no_handler}

abbrev pub codec : Codec numbers
codec = record { Body = ℕ; loads = λ n. ok n; dumps = λ n. ok n; slugify = slug }

abbrev refuse : String → Outcome Bool
refuse title = ok false

refused : AreRefusing numbers codec refuse (exposed_lamp ∷ [])
refused = ((λ e. ground arith), tt)

requests-AreRefusing_example :
    ((property_get numbers codec refuse "desk-lamp" "status" (exposed_lamp ∷ [])).1
      ≡ exposed_lamp ∷ [])
    × ((property_put numbers codec refuse "desk-lamp" "status" 4 (exposed_lamp ∷ [])).1
        ≡ exposed_lamp ∷ [])
    × ((action_post numbers codec refuse "desk-lamp" "status" 4 (exposed_lamp ∷ [])).1
        ≡ exposed_lamp ∷ [])
requests-AreRefusing_example =
    requests-AreRefusing numbers codec refuse "desk-lamp" "status" 4 (exposed_lamp ∷ []) refused

abbrev pub accept : String → Outcome Bool
accept title = ok true

pub served : IsServed numbers codec accept "desk-lamp" "status" "Status" [] exposed_lamp status
served = record {
  others = tt;
  named = refl;
  valid = refl;
  well_formed = whole_lamp-IsWellFormed;
  held = status_there;
  same_url_name = refl;
  writes = refl;
  no_update = no_handler;
  no_retrieve = no_handler;
}

-- An encoding that is its own code.
abbrev plain_library : Library
plain_library = record { b64encode = λ t. ok t; b64decode = λ t. ok t; introspect = λ t. ok false }

abbrev alice : Credentials
alice = ("username", "alice") ∷ ("password", "pass:word") ∷ ("token", "t0k") ∷ []

alice_name : Dict.get "username" alice ≡ some "alice"
unfolding Dict.get
alice_name = refl

alice_password : Dict.get "password" alice ≡ some "pass:word"
unfolding Dict.get
alice_password = refl

alice_token : Dict.get "token" alice ≡ some "t0k"
unfolding Dict.get
alice_token = refl

abbrev alice_code : Text
alice_code = codes "alice" ++ b':' ∷ codes "pass:word"

route-http_build_forms_example :
    map (route_of_form slug (codes "http") (codes "8080") (codes "host")) (
      http_build_forms slug (codes "http") (codes "8080") (codes "host") (codes "desk-lamp") status)
    ≡ map (λ r. some (r, (codes "desk-lamp", codes "status"))) (routes_for status.kind)
route-http_build_forms_example =
    route-http_build_forms slug (codes "http") (codes "8080") (codes "host") (codes "desk-lamp")
      status (record { no_slash = refl; filled = refl }) (record { no_slash = refl; filled = refl })
