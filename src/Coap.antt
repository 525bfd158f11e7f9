-- ===== src/Coap.antt =====
-- wotpy/protocols/coap/authenticator.py and credential.py: the credentials of a CoAP request stand in its
-- option 2048. Of the schemes only basic is there; texts in ASCII stand for bytes.
pub mod Resources
pub mod ReadBack
pub mod Client
pub mod Served
use wotpy.Prelude.{
  String, ◌≡◌, refl, Bool, true, false, ◌&&◌, Option, none, some, List, [], ◌∷◌, ◌++◌, string_eq,
  Text, codes, avoids,
}
use wotpy.Outcome.{Outcome, ok, raised, value_error, attribute_error, not_implemented}
use wotpy.Dict
use wotpy.Http.{
  SecurityScheme, nosec, basic, oidc4vp, scheme_of, Credentials, Library, basic_prefix,
  basic_header, is_text_of, authenticate_basic,
}
use wotpy.Http.SignIn.{lacks, authenticate_basic-sign_basic}

module _ (lib : Library) where
  open lib use {b64encode, b64decode}

  abbrev coap_required : String → Option String → (String → Outcome Text) → Outcome Text
  coap_required missing none f = raised (value_error missing)
  coap_required missing (some s) f = f s

  -- `BasicSecurityCredential`: the value of the option that `sign` adds
  unfoldable pub coap_sign_basic : Credentials → Outcome Text
  coap_sign_basic creds =
      coap_required "Missing CoAP username" (Dict.get "username" creds) (λ username.
        coap_required "Missing CoAP password" (Dict.get "password" creds)
          (λ password. basic_header lib username password))

  -- `BasicSecurityAuthenticator.authenticate`, for the options 2048 of the request
  unfoldable pub coap_authenticate_basic : Option Credentials → List Text → Outcome Bool
  unfolding authenticate_basic
  coap_authenticate_basic none options = raised (attribute_error "get")
  coap_authenticate_basic (some creds) [] = ok false
  coap_authenticate_basic (some creds) (header ∷ options) = authenticate_basic lib creds header

  -- `authenticate` of the class for a scheme
  unfoldable pub coap_authenticate : SecurityScheme → Option Credentials → List Text → Outcome Bool
  unfolding coap_authenticate_basic
  coap_authenticate nosec creds options = ok true
  coap_authenticate basic creds options = coap_authenticate_basic creds options
  coap_authenticate _ creds options = raised (not_implemented "authenticate")

  -- There is no class for OIDC4VP.
  abbrev coap_authenticate_by :
      Option SecurityScheme → Option Credentials → List Text → Outcome Bool
  coap_authenticate_by none creds options = raised (value_error "Unknown scheme")
  coap_authenticate_by (some oidc4vp) creds options = raised (value_error "Unknown scheme")
  coap_authenticate_by (some scheme) creds options = coap_authenticate scheme creds options

  -- `_check_credentials` of the server
  unfoldable pub coap_check_credentials :
      Option (String → Option Credentials) → String → String → List Text → Outcome Bool
  unfolding coap_authenticate
  coap_check_credentials none scheme title options = ok true
  coap_check_credentials (some retrieve) scheme title options =
      coap_authenticate_by (scheme_of scheme) (retrieve title) options

  -- A CoAP server with the basic scheme accepts the option that a client signs with a name and a
  -- password exactly when they are its own: for a name without a colon, where base64 encodes the
  -- pair, decodes it again, and its code does not hold the scheme's name with a space.
  pub coap_check_credentials-coap_sign_basic :
      (client server : Credentials) (retrieve : String → Option Credentials)
      (title username password : String) (encoded : Text)
      → retrieve title ≡ some server
      → Dict.get "username" client ≡ some username
      → Dict.get "password" client ≡ some password
      → avoids b':' (codes username) ≡ true
      → b64encode (codes username ++ b':' ∷ codes password) ≡ ok encoded
      → b64decode encoded ≡ ok (codes username ++ b':' ∷ codes password)
      → lacks basic_prefix encoded ≡ true
      → (coap_sign_basic client ≡ ok (basic_prefix ++ encoded))
        × (coap_check_credentials (some retrieve) "basic" title ((basic_prefix ++ encoded) ∷ [])
            ≡ ok (
                is_text_of (Dict.get "username" server) (codes username)
                && is_text_of (Dict.get "password" server) (codes password)))
  unfolding coap_sign_basic coap_check_credentials coap_authenticate coap_authenticate_basic
  coap_check_credentials-coap_sign_basic client server retrieve title username password encoded hr
        hu hp hc he hd hl =
      (
        rw (hu, hp, he) refl,
        rw hr
            (authenticate_basic-sign_basic lib client server username password encoded hu hp hc he
              hd hl).1,
      )
