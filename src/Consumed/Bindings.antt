-- ===== src/Consumed/Bindings.antt =====
-- The clients of HTTP and CoAP as those that a consumed Thing uses. They take no keyword arguments.
use wotpy.Prelude.{ℕ, String, ◌≡◌, Bool, Option, none, some, List, [], ◌∷◌, ◌++◌, string_eq, Text}
use wotpy.Outcome.{type_error, Outcome, ok, Exec, throw}
use wotpy.Json.{Json}
use wotpy.Thing.{Interaction}
use wotpy.Exposed.{Platform, ExposedThing}
use wotpy.Clients.{Urls, FormDict, ThingDescription, get_property_forms, pick_http_href}
use wotpy.Http.{Codec}
use wotpy.Http.Handlers.{Reply, empty_reply}
use wotpy.Http.ReadBack.{IsServed}
use wotpy.Http.Client.{
  HttpLibrary, HttpClient, no_credential, http_invoke_action, http_write_property,
  http_read_property,
}
use wotpy.Http.Served.{IsDelivered, http_read_property-http_write_property}
use wotpy.Consumed.{Kwargs, ProtocolClient}
use wotpy.Consumed.Objects.{ReadsBack}

-- A call of a method that takes no keyword arguments
abbrev pub no_kwargs : {S A : Type 0} → Kwargs → Exec S A → Exec S A
no_kwargs [] body = body
no_kwargs (x ∷ kwargs) body = throw (type_error "got an unexpected keyword argument")

unfoldable pub http_client :
    {S Raw : Type 0}
    → HttpLibrary S Raw
    → Urls
    → HttpClient
    → (Json → String)
    → ThingDescription
    → ProtocolClient S
unfolding http_invoke_action http_write_property http_read_property
http_client lib urls client text_of td = record {
  protocol = "HTTP";
  invoke_action = λ name v timeout kwargs.
      no_kwargs kwargs (http_invoke_action lib urls client text_of td name v timeout);
  write_property = λ name v timeout kwargs.
      no_kwargs kwargs (http_write_property lib urls client text_of td name v timeout);
  read_property = λ name timeout kwargs.
      no_kwargs kwargs (http_read_property lib urls client text_of td name timeout);
}

module _ (p : Platform) (c : Codec p) (lib : HttpLibrary (List (ExposedThing p)) c.Body)
    (check : Option Text → String → Outcome Bool) (urls : Urls) (client : HttpClient)
    (text_of : Json → String) (respond : Reply c.Body → Outcome c.Body) (td : ThingDescription)
    (forms : List FormDict) (href thing_name name : String)
    (delivered : IsDelivered p c lib check respond href thing_name name)
    (has_forms : get_property_forms td name ≡ ok forms)
    (picks : pick_http_href urls td.base forms none ≡ some href) where
  -- The HTTP client keeps the law of consumed Things for a property of a server that
  -- it reaches: under the conditions of `http_read_property-http_write_property`.
  pub http_client-ReadsBack :
      (key : String) (xs ys : List (ExposedThing p)) (e : ExposedThing p) (i : Interaction)
      (v v' : Json) (w : p.Value) (body answer empty : c.Body)
      → client.credential ≡ no_credential
      → IsServed p c (check none) thing_name name key xs e i
      → lib.dumps v ≡ ok body
      → c.loads body ≡ ok w
      → c.dumps w ≡ ok answer
      → lib.loads answer ≡ ok v'
      → respond empty_reply ≡ ok empty
      → ReadsBack (http_client lib urls client text_of td) name v v' (xs ++ e ∷ ys) [] []
  unfolding http_client
  http_client-ReadsBack key xs ys e i v v' w body answer empty unsigned served dumped understood
        dumped' understood' accepted =
      let run = λ (timeout timeout' : Option ℕ).
        http_read_property-http_write_property p c lib check urls client text_of respond td forms
          href thing_name name delivered has_forms picks key xs ys e i v v' w body answer empty
          timeout timeout' unsigned served dumped understood dumped' understood' accepted in
      record {
        writes = λ timeout. (run timeout none).0;
        reads = λ timeout timeout'. (run timeout timeout').1;
      }
