-- ===== src/Http/Invoked.antt =====
-- The HTTP client and the answer to an invocation.
use wotpy.Prelude.{
  ℕ, String, Bool, ◌≡◌, ◌∙◌, refl, ap, true, Option, none, some, List, ◌∷◌, ◌++◌, nat_eq, string_eq,
}
use wotpy.Outcome.{Outcome, ok, raised, type_error}
use wotpy.Json.{ℤ, Json, null, bool, integer, real}
use wotpy.Exposed.{Platform, ExposedThing, action_invoke}
use wotpy.Clients.{Urls, FormDict, ThingDescription, get_action_forms, pick_http_href}
use wotpy.Http.Handlers.{Codec, Reply, written, is_named, action_post, on_json_body, invoke_body}
use wotpy.Http.Safety.{AreOthers, authorized_found}
use wotpy.Http.Client.{
  HttpRequest, HttpLibrary, HttpClient, no_credential, build_request, picked, sign_request,
  http_invoke_action, contains_error, if_error,
}

-- What a client makes of the result of an action, by its kind
pub data Scalar : Json → Type 0 where
  null_result : Scalar null
  bool_result : (b : Bool) → Scalar (bool b)
  integer_result : (n : ℤ) → Scalar (integer n)
  real_result : (s : String) (is_integral : Bool) → Scalar (real s is_integral)

answers :
    (p : Platform) (c : Codec p) (check : String → Outcome Bool) (thing_name name : String)
    (xs ys : List (ExposedThing p)) (e e' : ExposedThing p) (w r : p.Value) (body answer : c.Body)
    → AreOthers p c thing_name xs
    → is_named p c thing_name e ≡ true
    → check e.thing.title ≡ ok true
    → c.loads body ≡ ok w
    → action_invoke p c.slugify name w e ≡ (ok r, e')
    → c.dumps r ≡ ok answer
    → action_post p c check thing_name name body (xs ++ e ∷ ys) ≡ (written answer, xs ++ e' ∷ ys)
unfolding action_post
answers p c check thing_name name xs ys e e' w r body answer others named valid understood invoked
      dumped =
    authorized_found p c check thing_name (on_json_body p c (c.loads body) (invoke_body p c name))
      xs ys e others named valid
    ∙ rw (understood, invoked, dumped) refl

module _ (p : Platform) (c : Codec p) (lib : HttpLibrary (List (ExposedThing p)) c.Body)
    (check : String → Outcome Bool) where
  open lib use {fetch, loads, dumps}

  -- Invocations of an action at a URL go to the server's handler, and a document comes back as it is.
  pub record AreDelivered (respond : Reply c.Body → Outcome c.Body) (href thing_name name : String)
      : Type 0 where
    pub posts :
        (request : HttpRequest c.Body) (body : c.Body) (things : List (ExposedThing p))
        → request.href ≡ href
        → request.method ≡ "POST"
        → request.body ≡ some body
        → fetch request things
          ≡ let (reply, things') = action_post p c check thing_name name body things in
            (respond reply, things')
    pub document : (b : c.Body) → respond (written b) ≡ ok b

  module _ (urls : Urls) (client : HttpClient) (text_of : Json → String)
      (respond : Reply c.Body → Outcome c.Body) (td : ThingDescription) (forms : List FormDict)
      (href thing_name name : String) (delivered : AreDelivered respond href thing_name name)
      (has_forms : get_action_forms td name ≡ ok forms)
      (picks : pick_http_href urls td.base forms none ≡ some href)
      (unsigned : client.credential ≡ no_credential) where
    invokes :
        (xs ys : List (ExposedThing p)) (e e' : ExposedThing p) (input result : Json)
        (w r : p.Value) (body answer : c.Body) (timeout : Option ℕ)
        → AreOthers p c thing_name xs
        → is_named p c thing_name e ≡ true
        → check e.thing.title ≡ ok true
        → dumps input ≡ ok body
        → c.loads body ≡ ok w
        → action_invoke p c.slugify name w e ≡ (ok r, e')
        → c.dumps r ≡ ok answer
        → loads answer ≡ ok result
        → http_invoke_action lib urls client text_of td name input timeout (xs ++ e ∷ ys)
          ≡ (if_error text_of result (contains_error result), xs ++ e' ∷ ys)
    unfolding http_invoke_action picked sign_request
    invokes xs ys e e' input result w r body answer timeout others named valid sent understood
          invoked dumped loaded =
        let ran : action_post p c check thing_name name body (xs ++ e ∷ ys)
            ≡ (written answer, xs ++ e' ∷ ys) =
          answers p c check thing_name name xs ys e e' w r body answer others named valid understood
            invoked dumped in
        rw
          (
            has_forms,
            picks,
            sent,
            unsigned,
            delivered.posts (build_request client href "POST" (some body) timeout) body
                (xs ++ e ∷ ys) refl refl refl,
            ran,
            delivered.document answer,
            loaded,
          )
          refl

    -- For a client without a credential, and a URL whose requests reach an action of the first Thing with the
    -- name, which accepts them: where the invocation on the server ends with a result that is None,
    -- a Boolean or a number, its effects stay and the client raises a TypeError, since it looks for
    -- "error" in the result.
    pub http_invoke_action-action_post :
        (xs ys : List (ExposedThing p)) (e e' : ExposedThing p) (input result : Json)
        (w r : p.Value) (body answer : c.Body) (timeout : Option ℕ)
        → Scalar result
        → AreOthers p c thing_name xs
        → is_named p c thing_name e ≡ true
        → check e.thing.title ≡ ok true
        → dumps input ≡ ok body
        → c.loads body ≡ ok w
        → action_invoke p c.slugify name w e ≡ (ok r, e')
        → c.dumps r ≡ ok answer
        → loads answer ≡ ok result
        → http_invoke_action lib urls client text_of td name input timeout (xs ++ e ∷ ys)
          ≡ (raised (type_error "argument is not iterable"), xs ++ e' ∷ ys)
    http_invoke_action-action_post xs ys e e' input result w r body answer timeout scalar others
          named valid sent understood invoked dumped loaded =
        invokes xs ys e e' input result w r body answer timeout others named valid sent understood
          invoked dumped loaded
        ∙ ap (λ q. (q, xs ++ e' ∷ ys)) (refused scalar)
      where
        refused :
            {j : Json}
            → Scalar j
            → if_error text_of j (contains_error j) ≡ raised (type_error "argument is not iterable")
        refused null_result = refl
        refused (bool_result b) = refl
        refused (integer_result n) = refl
        refused (real_result t is_integral) = refl
