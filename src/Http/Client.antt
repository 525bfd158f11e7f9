-- ===== src/Http/Client.antt =====
-- wotpy/protocols/http/client.py: the requests of the HTTP client, up to their answers. What happens outside
-- (the servers and the tokens of the credential) is a state that the library's functions change.
use wotpy.Prelude.{
  ℕ, String, Bool, true, false, Option, none, some, List, ◌==◌, nat_eq, string_eq, Text, codes,
  if◌then◌else◌,
}
use wotpy.Outcome.{
  type_error, form_not_found, user_error, Outcome, ok, raised, Exec, pure, throw, lift, modify,
  ◌>>=◌, ◌>>◌,
}
use wotpy.Json.{Json, Items, str, arr, obj, nil, cons, get_field, is_there}
use wotpy.Clients.{
  Urls, FormDict, ThingDescription, get_property_forms, get_action_forms, pick_http_href, occurs,
}

-- `authorization` is the header that a credential adds; what is the same in all requests is left out. Times
-- are in milliseconds.
pub record HttpRequest (Raw : Type 0) : Type 0 where
  pub href : String
  pub method : String
  pub body : Option Raw
  pub authorization : Option Text
  pub connect_timeout : ℕ
  pub request_timeout : ℕ

-- The credential that `set_security` built
pub data Credential : Type 0 where
  no_credential plain_credential oidc4vp_credential : Credential

pub record HttpLibrary (S Raw : Type 0) : Type 0 where
  -- `AsyncHTTPClient.fetch`: the body of the answer, or the exception of a failure
  pub fetch : HttpRequest Raw → Exec S Raw
  -- the credential's `sign`
  pub sign : HttpRequest Raw → Exec S (HttpRequest Raw)
  -- `_access_tokens.pop(url, None)`
  pub drop_token : String → S → S
  pub loads : Raw → Outcome Json
  pub dumps : Json → Outcome Raw

-- `timeout if timeout else default`
abbrev pub or_default : Option ℕ → ℕ → ℕ
or_default none default = default
or_default (some t) default = if t == 0 then default else t

-- `"error" in resp_body`
abbrev has_item : String → Items → Bool
has_item x nil = false
has_item x (cons (str s) xs) = if s == x then true else has_item x xs
has_item x (cons j xs) = has_item x xs

abbrev pub contains_error : Json → Outcome Bool
contains_error (obj fs) = ok (is_there (get_field "error" fs))
contains_error (arr xs) = ok (has_item "error" xs)
contains_error (str s) = ok (occurs (codes "error") (codes s))
contains_error _ = raised (type_error "argument is not iterable")

abbrev href_or_raise : {S : Type 0} → Option String → Exec S String
href_or_raise none = throw form_not_found
href_or_raise (some href) = pure href

abbrev pub if_error : (Json → String) → Json → Outcome Bool → Outcome Json
if_error text_of body (raised e) = raised e
if_error text_of body (ok true) = raised (user_error (text_of body))
if_error text_of body (ok false) = ok body

pub record HttpClient : Type 0 where
  pub credential : Credential
  pub connect_timeout : ℕ
  pub request_timeout : ℕ

abbrev pub build_request :
    {Raw : Type 0} → HttpClient → String → String → Option Raw → Option ℕ → HttpRequest Raw
build_request client href method body timeout = record {
  href = href;
  method = method;
  body = body;
  authorization = none;
  connect_timeout = or_default timeout client.connect_timeout;
  request_timeout = or_default timeout client.request_timeout;
}

-- `pick_http_href` of an interaction's forms
unfoldable pub picked :
    {S : Type 0} → Urls → ThingDescription → Outcome (List FormDict) → Exec S String
unfolding pick_http_href
picked urls td (raised e) = throw e
picked urls td (ok forms) = href_or_raise (pick_http_href urls td.base forms none)

module _ {S Raw : Type 0} (lib : HttpLibrary S Raw) (urls : Urls) (client : HttpClient)
    (text_of : Json → String) where
  open lib use {fetch, sign, drop_token, loads, dumps}

  unfoldable pub sign_request : HttpRequest Raw → Exec S (HttpRequest Raw)
  sign_request request = elim client.credential [ no_credential ↦ pure request | _ ↦ sign request ]

  unfoldable pub http_invoke_action : ThingDescription → String → Json → Option ℕ → Exec S Json
  unfolding picked sign_request get_action_forms
  http_invoke_action td name input_value timeout = do
    href ← picked urls td (get_action_forms td name)
    body ← lift (dumps input_value)
    request ← sign_request (build_request client href "POST" (some body) timeout)
    response ← fetch request
    resp_body ← lift (loads response)
    lift (if_error text_of resp_body (contains_error resp_body))

  -- The request is not signed.
  unfoldable pub http_write_property :
      ThingDescription → String → Json → Option ℕ → Exec S (Unit {0})
  unfolding picked get_property_forms
  http_write_property td name value timeout = do
    href ← picked urls td (get_property_forms td name)
    body ← lift (dumps value)
    fetch (build_request client href "PUT" (some body) timeout)
    pure tt

  unfoldable pub sign_and_fetch : HttpRequest Raw → Exec S Raw
  unfolding sign_request
  sign_and_fetch request = sign_request request >>= fetch

  -- One more attempt with a new token
  unfoldable pub or_retry : HttpRequest Raw → Outcome Raw → Exec S Raw
  unfolding sign_and_fetch
  or_retry request (ok response) = pure response
  or_retry request (raised e) = elim client.credential [
    | oidc4vp_credential ↦ modify (drop_token request.href) >> sign_and_fetch request
    | _ ↦ throw e
  ]

  unfoldable pub retrying : HttpRequest Raw → Exec S Raw
  unfolding sign_and_fetch or_retry
  retrying request s = let (r, s') = sign_and_fetch request s in or_retry request r s'

  unfoldable pub http_read_property : ThingDescription → String → Option ℕ → Exec S Json
  unfolding picked retrying get_property_forms
  http_read_property td name timeout = do
    href ← picked urls td (get_property_forms td name)
    response ← retrying (build_request client href "GET" none timeout)
    lift (loads response)
