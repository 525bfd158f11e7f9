-- ===== src/Coap/Client.antt =====
-- wotpy/protocols/coap/client.py: the requests of the CoAP client. What happens outside is a state that the
-- library changes; its contexts, which are opened and shut down for each request, keep none.
use wotpy.Prelude.{ℕ, String, Bool, Option, none, some, List, [], ◌∷◌, Text, if◌then◌else◌}
use wotpy.Outcome.{
  form_not_found, client_timeout, protocol_client, Outcome, ok, raised, Exec, pure, throw, lift,
  ◌>>=◌, ◌>>◌,
}
use wotpy.Json.{Json}
use wotpy.Clients.{
  Urls, FormDict, ThingDescription, get_property_forms, get_action_forms, pick_coap_href,
}
use wotpy.Http.Client.{contains_error, if_error}

-- `options` are those with the credentials. `observe` is not here.
pub record CoapMessage (Raw : Type 0) : Type 0 where
  pub code : String
  pub uri : String
  pub payload : Option Raw
  pub options : List Text

pub record CoapResponse (Raw : Type 0) : Type 0 where
  pub is_successful : Bool
  pub payload : Raw

pub record CoapLibrary (S Raw : Type 0) : Type 0 where
  -- the response to a request, none where `wait_for` ends before it comes, or an exception
  pub request : CoapMessage Raw → Option ℕ → Exec S (Option (CoapResponse Raw))
  pub loads : Raw → Outcome Json
  pub dumps : Json → Outcome Raw
  pub decode : Raw → String

abbrev href_found : {S : Type 0} → Option String → Exec S String
href_found none = throw form_not_found
href_found (some href) = pure href

-- `_pick_coap_href` of an interaction's forms for an operation
unfoldable pub coap_picked :
    {S : Type 0} → Urls → ThingDescription → Outcome (List FormDict) → String → Exec S String
unfolding pick_coap_href
coap_picked urls td (raised e) op = throw e
coap_picked urls td (ok forms) op = href_found (pick_coap_href urls td.base forms (some op))

-- What the credential adds is an option: none without a credential, and for that of "nosec".
unfoldable pub coap_sign_request :
    {Raw : Type 0} → Option (Outcome Text) → CoapMessage Raw → Outcome (CoapMessage Raw)
coap_sign_request none msg = ok msg
coap_sign_request (some (raised e)) msg = raised e
coap_sign_request (some (ok option)) msg = ok (record msg { options = option ∷ [] })

module _ {S Raw : Type 0} (lib : CoapLibrary S Raw) (urls : Urls)
    (sign : Option (Outcome Text)) where
  open lib use {loads, dumps, decode}

  -- `_assert_success`
  abbrev assert_success : CoapResponse Raw → Outcome Raw
  assert_success res =
      if res.is_successful then ok res.payload else raised (protocol_client (decode res.payload))

  abbrev pub in_time : Option (CoapResponse Raw) → Outcome Raw
  in_time none = raised client_timeout
  in_time (some res) = assert_success res

  abbrev pub message : String → String → Option Raw → CoapMessage Raw
  message code uri payload = record { code = code; uri = uri; payload = payload; options = [] }

  unfoldable pub coap_send : CoapMessage Raw → Option ℕ → Exec S Raw
  unfolding coap_sign_request
  coap_send msg timeout = do
    signed ← lift (coap_sign_request sign msg)
    response ← lib.request signed timeout
    lift (in_time response)

  unfoldable pub coap_invoke_action :
      (Json → String) → ThingDescription → String → Json → Option ℕ → Exec S Json
  unfolding coap_picked coap_send get_action_forms
  coap_invoke_action text_of td name input_value timeout = do
    href ← coap_picked urls td (get_action_forms td name) "invokeaction"
    payload ← lift (dumps input_value)
    response ← coap_send (message "POST" href (some payload)) timeout
    resp_payload ← lift (loads response)
    lift (if_error text_of resp_payload (contains_error resp_payload))

  unfoldable pub coap_write_property :
      ThingDescription → String → Json → Option ℕ → Exec S (Unit {0})
  unfolding coap_picked coap_send get_property_forms
  coap_write_property td name value timeout = do
    href ← coap_picked urls td (get_property_forms td name) "writeproperty"
    payload ← lift (dumps value)
    coap_send (message "PUT" href (some payload)) timeout
    pure tt

  unfoldable pub coap_read_property : ThingDescription → String → Option ℕ → Exec S Json
  unfolding coap_picked coap_send get_property_forms
  coap_read_property td name timeout = do
    href ← coap_picked urls td (get_property_forms td name) "readproperty"
    response ← coap_send (message "GET" href none) timeout
    lift (loads response)
