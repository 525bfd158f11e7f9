-- ===== src/Http/Auth.antt =====
-- wotpy/protocols/http/credential.py and authenticator.py: how a client signs a request, and how a
-- server checks it. Parameters: base64, and the answer of the OAuth2 endpoint for a token.
use wotpy.Prelude.{
  String, Bool, true, false, not, ◌&&◌, Option, none, some, ◌∷◌, ◌++◌, ◌==◌, string_eq, text_eq,
  Text, codes, starts_with, remove_all, split_once, if◌then◌else◌,
}
use wotpy.Outcome.{Outcome, ok, raised, value_error, attribute_error, not_implemented}
use wotpy.Dict
use wotpy.Dict.{Dict}

-- wot/enums.py
pub data SecurityScheme : Type 0 where
  nosec auto combo basic digest apikey bearer psk oauth2 oidc4vp : SecurityScheme

-- `scheme_type` in the maps of the two `build`
abbrev pub scheme_of : String → Option SecurityScheme
scheme_of s =
    if s == "nosec"
    then some nosec
    else if s == "auto"
    then some auto
    else if s == "combo"
    then some combo
    else if s == "basic"
    then some basic
    else if s == "digest"
    then some digest
    else if s == "apikey"
    then some apikey
    else if s == "bearer"
    then some bearer
    else if s == "psk"
    then some psk
    else if s == "oauth2"
    then some oauth2
    else if s == "oidc4vp"
    then some oidc4vp
    else none

-- What a parsed dictionary holds under a key.
abbrev pub Credentials : Type 0
Credentials = Dict String String

abbrev pub basic_prefix : Text
basic_prefix = codes "Basic "

abbrev pub bearer_prefix : Text
bearer_prefix = codes "Bearer "

abbrev pub outcome_of : {A B : Type 0} → (A → Outcome B) → Outcome A → Outcome B
outcome_of f (ok a) = f a
outcome_of f (raised e) = raised e

-- `b64encode` of a text in ASCII, and `b64decode` with `decode`; `introspect` is what the endpoint says
-- of a token.
pub record Library : Type 0 where
  pub b64encode : Text → Outcome Text
  pub b64decode : Text → Outcome Text
  pub introspect : Text → Outcome Bool

abbrev pub is_text_of : Option String → Text → Bool
is_text_of none t = false
is_text_of (some s) t = codes s == t

abbrev pub match_basic : Option String → Option String → Option (Text × Text) → Outcome Bool
match_basic username password none = raised (value_error "not enough values to unpack")
match_basic username password (some (u, pw)) = ok (is_text_of username u && is_text_of password pw)

module _ (lib : Library) where
  open lib use {b64encode, b64decode, introspect}

  abbrev required : String → Option String → (String → Outcome Text) → Outcome Text
  required missing none f = raised (value_error missing)
  required missing (some s) f = f s

  abbrev pub basic_header : String → String → Outcome Text
  basic_header username password =
      outcome_of (λ encoded. ok (basic_prefix ++ encoded))
        (b64encode (codes username ++ b':' ∷ codes password))

  -- `BasicSecurityCredential`: the header that `sign` adds
  unfoldable pub sign_basic : Credentials → Outcome Text
  sign_basic creds = required "Missing HTTP username" (Dict.get "username" creds) (λ username.
      required "Missing HTTP password" (Dict.get "password" creds)
        (λ password. basic_header username password))

  -- `BearerSecurityCredential`
  unfoldable pub sign_bearer : Credentials → Outcome Text
  sign_bearer creds =
      required "Missing HTTP token" (Dict.get "token" creds)
        (λ token. ok (bearer_prefix ++ codes token))

  -- `BasicSecurityAuthenticator.authenticate`, for the header or the empty text
  unfoldable pub authenticate_basic : Credentials → Text → Outcome Bool
  authenticate_basic creds header =
      if not (starts_with basic_prefix header)
      then ok false
      else outcome_of
          (λ decoded.
            match_basic (Dict.get "username" creds) (Dict.get "password" creds)
              (split_once b':' decoded))
          (b64decode (remove_all basic_prefix header))

  -- `BearerSecurityAuthenticator.authenticate`
  unfoldable pub authenticate_bearer : Credentials → Text → Outcome Bool
  authenticate_bearer creds header =
      if not (starts_with bearer_prefix header)
      then ok false
      else ok (is_text_of (Dict.get "token" creds) (remove_all bearer_prefix header))

  -- `OAuth2SecurityAuthenticator.authenticate`
  unfoldable pub authenticate_oauth2 : Text → Outcome Bool
  authenticate_oauth2 header =
      if not (starts_with bearer_prefix header)
      then ok false
      else introspect (remove_all bearer_prefix header)

  -- `server_creds.get(...)` fails where the servient has no credentials of the Thing.
  abbrev with_creds : (Credentials → Outcome Bool) → Option Credentials → Outcome Bool
  with_creds f none = raised (attribute_error "get")
  with_creds f (some creds) = f creds

  -- `authenticate` of the class for a scheme. That for OIDC4VP returns None.
  unfoldable pub authenticate : SecurityScheme → Option Credentials → Text → Outcome Bool
  unfolding authenticate_basic authenticate_bearer authenticate_oauth2
  authenticate nosec creds header = ok true
  authenticate basic creds header = with_creds (λ c. authenticate_basic c header) creds
  authenticate bearer creds header = with_creds (λ c. authenticate_bearer c header) creds
  authenticate oauth2 creds header = authenticate_oauth2 header
  authenticate oidc4vp creds header = ok false
  authenticate _ creds header = raised (not_implemented "authenticate")

  -- `BaseAuthenticator.build` for a scheme's name, and the call of `authenticate`
  abbrev pub authenticate_by : Option SecurityScheme → Option Credentials → Text → Outcome Bool
  authenticate_by none creds header = raised (value_error "Unknown scheme")
  authenticate_by (some scheme) creds header = authenticate scheme creds header

  -- `_check_credentials` of the server; without a servient, everything passes. `retrieve` is the
  -- servient's `retrieve_credentials`.
  unfoldable pub check_credentials :
      Option (String → Option Credentials) → String → String → Text → Outcome Bool
  unfolding authenticate
  check_credentials none scheme title header = ok true
  check_credentials (some retrieve) scheme title header =
      authenticate_by (scheme_of scheme) (retrieve title) header
