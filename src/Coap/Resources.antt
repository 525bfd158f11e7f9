-- ===== src/Coap/Resources.antt =====
-- wotpy/protocols/coap/resources: the answers to the requests for properties and actions. The state is the
-- server's ExposedThings; a request runs to its end in one step. Observations are not here.
use wotpy.Prelude.{
  String, Bool, true, false, not, ◌||◌, Option, none, some, List, [], ◌∷◌, ◌==◌, string_eq, Text,
  find?, if◌then◌else◌,
}
use wotpy.Outcome.{Error, type_error, message_of, Outcome, ok, raised}
use wotpy.Dict
use wotpy.Dict.{Dict}
use wotpy.Exposed.{Platform, ExposedThing, handle_write_property, property_read, action_invoke}
use wotpy.Http.{Codec, is_named}

-- `query` is what `parse_request_opt_query` gives; `options` are those with the credentials.
pub record CoapRequest (Body : Type 0) : Type 0 where
  pub query : Dict String String
  pub payload : Body
  pub options : List Text

-- The response, or the exception that becomes one
pub data CoapReply (Body : Type 0) : Type 0 where
  content : Body → CoapReply Body
  changed : CoapReply Body
  bad_request not_found unauthorized method_not_allowed : String → CoapReply Body
  failed : Error → CoapReply Body

abbrev pub is_given : Option String → Bool
is_given none = false
is_given (some s) = not (s == "")

abbrev pub text_or_empty : Option String → String
text_or_empty none = ""
text_or_empty (some s) = s

module _ (p : Platform) (c : Codec p) where
  open p use {Value}
  open c use {Body, loads, dumps, slugify}

  abbrev pub Answering : Type 0
  Answering = ExposedThing p → CoapReply Body × ExposedThing p

  -- `find_by_thing_title`, and what is done with the Thing
  unfoldable pub on_titled :
      String → Answering → List (ExposedThing p) → CoapReply Body × List (ExposedThing p)
  on_titled name body [] = (not_found "Thing not found", [])
  on_titled name body (e ∷ es) =
      let (r, es') = on_titled name body es in
      if is_named p c name e then (let (q, e') = body e in (q, e' ∷ es)) else (r, e ∷ es')

  abbrev pub if_authorized : Outcome Bool → Answering → Answering
  if_authorized (raised err) body e = (failed err, e)
  if_authorized (ok false) body e = (unauthorized "Authentication required", e)
  if_authorized (ok true) body e = body e

  abbrev pub on_key : String → Option String → (String → Answering) → Answering
  on_key missing none body e = (not_found missing, e)
  on_key missing (some key) body e = body key e

  -- `url_name` of the interaction under a key, which is its name
  abbrev pub key_of : {A : Type 0} → String → Dict String A → Option String
  key_of url_name d = find? (λ key. slugify key == url_name) (Dict.keys d)

  abbrev pub url_name_of : CoapRequest Body → String
  url_name_of request = text_or_empty (Dict.get "name" request.query)

  abbrev pub dumped : Outcome Body → CoapReply Body
  dumped (ok b) = content b
  dumped (raised err) = failed err

  abbrev pub coap_reply_of_read : Outcome Value → CoapReply Body
  coap_reply_of_read (ok v) = dumped (dumps v)
  coap_reply_of_read (raised err) = failed err

  abbrev pub get_body : String → Answering
  get_body key e = let (r, e') = property_read p slugify key e in (coap_reply_of_read r, e')

  abbrev pub coap_reply_of_write : Outcome (Unit {0}) → CoapReply Body
  coap_reply_of_write (ok u) = changed
  coap_reply_of_write (raised (type_error s)) = method_not_allowed s
  coap_reply_of_write (raised err) = failed err

  abbrev pub put_value : Outcome Value → String → Answering
  put_value (raised err) key e = (failed err, e)
  put_value (ok v) key e =
      let (r, e') = handle_write_property p slugify key v e in (coap_reply_of_write r, e')

  -- `json.dumps` stands in the `try` too. `dumps_error` is the text for "error " and a message.
  abbrev result_dumped : (String → Body) → Outcome Body → CoapReply Body
  result_dumped dumps_error (ok b) = content b
  result_dumped dumps_error (raised err) = content (dumps_error (message_of err))

  abbrev pub coap_reply_of_result : (String → Body) → Outcome Value → CoapReply Body
  coap_reply_of_result dumps_error (ok v) = result_dumped dumps_error (dumps v)
  coap_reply_of_result dumps_error (raised err) = content (dumps_error (message_of err))

  abbrev pub post_value : (String → Body) → Outcome Value → String → Answering
  post_value dumps_error (raised err) key e = (failed err, e)
  post_value dumps_error (ok v) key e =
      let (r, e') = action_invoke p slugify key v e in (coap_reply_of_result dumps_error r, e')

  -- `check` is `_check_credentials` of the server for a title and the options.
  module _ (check : List Text → String → Outcome Bool) where
    -- `get_thing_property` and `get_thing_action`, by the table of interactions, and what is done with its key
    unfoldable pub on_interaction :
        String
        → (ExposedThing p → Option String)
        → (String → Answering)
        → CoapRequest Body
        → List (ExposedThing p)
        → CoapReply Body × List (ExposedThing p)
    unfolding on_titled
    on_interaction missing find body request things =
        if not (is_given (Dict.get "thing" request.query))
          || not (is_given (Dict.get "name" request.query))
        then (bad_request "Missing query arguments", things)
        else on_titled (text_or_empty (Dict.get "thing" request.query))
            (λ e.
              if_authorized (check request.options e.thing.title)
                (λ e'. on_key missing (find e') body e') e)
            things

    -- `render_get` and `render_put` of a property
    unfoldable pub property_render_get :
        CoapRequest Body → List (ExposedThing p) → CoapReply Body × List (ExposedThing p)
    unfolding on_interaction
    property_render_get request =
        on_interaction "Property not found" (λ e. key_of (url_name_of request) e.thing.properties)
          get_body request

    unfoldable pub property_render_put :
        CoapRequest Body → List (ExposedThing p) → CoapReply Body × List (ExposedThing p)
    unfolding on_interaction
    property_render_put request =
        on_interaction "Property not found" (λ e. key_of (url_name_of request) e.thing.properties)
          (put_value (loads request.payload)) request

    -- `render_post` of an action
    unfoldable pub action_render_post :
        (String → Body)
        → CoapRequest Body
        → List (ExposedThing p)
        → CoapReply Body × List (ExposedThing p)
    unfolding on_interaction
    action_render_post dumps_error request =
        on_interaction "Action not found" (λ e. key_of (url_name_of request) e.thing.actions)
          (post_value dumps_error (loads request.payload)) request
