-- ===== src/Http/Requests.antt =====
-- What the HTTP client does when its request fails.
use wotpy.Prelude.{ℕ, String, ◌≡◌, refl, Option, none, some, List, nat_eq, string_eq}
use wotpy.Outcome.{Error, ok, raised}
use wotpy.Json.{Json}
use wotpy.Clients.{
  Urls, FormDict, ThingDescription, get_property_forms, get_action_forms, pick_http_href,
}
use wotpy.Http.Client.{
  HttpRequest, HttpLibrary, HttpClient, plain_credential, picked, sign_and_fetch, build_request,
  sign_request, http_invoke_action, http_read_property, retrying, or_retry,
}

module _ {S Raw : Type 0} (lib : HttpLibrary S Raw) (urls : Urls) (client : HttpClient)
    (text_of : Json → String) where
  open lib use {fetch, sign, dumps}

  -- With a credential that signs, and is not that of OIDC4VP: an exception of the library at the request,
  -- a timeout also, is the exception that an invocation and a read raise; it is not
  -- converted.
  pub failed_fetch :
      (td : ThingDescription) (name name' href href' : String) (forms forms' : List FormDict)
      (input : Json) (timeout : Option ℕ) (body : Raw) (post get : HttpRequest Raw) (s s' s'' : S)
      (e : Error)
      → client.credential ≡ plain_credential
      → get_action_forms td name ≡ ok forms
      → get_property_forms td name' ≡ ok forms'
      → pick_http_href urls td.base forms none ≡ some href
      → pick_http_href urls td.base forms' none ≡ some href'
      → dumps input ≡ ok body
      → sign (build_request client href "POST" (some body) timeout) s ≡ (ok post, s')
      → sign (build_request client href' "GET" none timeout) s ≡ (ok get, s')
      → fetch post s' ≡ (raised e, s'')
      → fetch get s' ≡ (raised e, s'')
      → (http_invoke_action lib urls client text_of td name input timeout s ≡ (raised e, s''))
        × (http_read_property lib urls client text_of td name' timeout s ≡ (raised e, s''))
  unfolding http_invoke_action http_read_property picked sign_request sign_and_fetch retrying
      or_retry
  failed_fetch td name name' href href' forms forms' input timeout body post get s s' s'' e plain
        action property picks picks' dumped signed signed' failed failed' =
      (
        rw (action, picks, dumped, plain, signed, failed) refl,
        rw (property, picks', plain, signed', failed') refl,
      )
