-- ===== src/Http/Handlers.antt =====
-- wotpy/protocols/http/handlers: what the server does with a request. The state is the server's
-- ExposedThings; a request runs to its end in one step.
use wotpy.Prelude.{
  String, Bool, true, false, ◌||◌, Option, none, some, List, [], ◌∷◌, ◌==◌, string_eq,
  if◌then◌else◌,
}
use wotpy.Outcome.{Error, type_error, message_of, Outcome, ok, raised}
use wotpy.Exposed.{Platform, ExposedThing, handle_write_property, property_read, action_invoke}

-- `json.loads` of a body and `json.dumps` of a value.
pub record Codec (p : Platform) : Type 1 where
  pub Body : Type 0
  pub loads : Body → Outcome p.Value
  pub dumps : p.Value → Outcome Body
  pub slugify : String → String

-- The `HTTPError` that a handler raises, by the argument it is given.
pub data HttpError : Type 0 where
  unknown_thing reason status_code : String → HttpError
  log_message : Error → HttpError

pub data Reply (Body : Type 0) : Type 0 where
  -- a document, with its content type
  written : Body → Reply Body
  empty_reply : Reply Body
  -- `request_auth`: status 401, for the realm of a Thing
  unauthorized : String → Reply Body
  http_error : HttpError → Reply Body
  -- an exception that is no `HTTPError`
  failed : Error → Reply Body

module _ (p : Platform) (c : Codec p) where
  open p use {Value}
  open c use {Body, loads, dumps, slugify}

  -- `find_by_thing_title` of the server's set
  abbrev pub is_named : String → ExposedThing p → Bool
  is_named name e = e.thing.title == name || slugify e.thing.title == name

  -- `get_exposed_thing`, and a method of the Thing
  unfoldable pub on_exposed_thing :
      String
      → (ExposedThing p → Reply Body × ExposedThing p)
      → List (ExposedThing p)
      → Reply Body × List (ExposedThing p)
  on_exposed_thing name body [] = (http_error (unknown_thing name), [])
  on_exposed_thing name body (e ∷ es) =
      let (r, es') = on_exposed_thing name body es in
      if is_named name e then (let (q, e') = body e in (q, e' ∷ es)) else (r, e ∷ es')

  abbrev pub if_valid :
      String
      → Outcome Bool
      → (ExposedThing p → Reply Body × ExposedThing p)
      → ExposedThing p
      → Reply Body × ExposedThing p
  if_valid name (raised err) body e = (failed err, e)
  if_valid name (ok false) body e = (unauthorized name, e)
  if_valid name (ok true) body e = body e

  abbrev pub write_json : Outcome Body → Reply Body
  write_json (ok b) = written b
  write_json (raised err) = failed err

  abbrev pub reply_of_read : Outcome Value → Reply Body
  reply_of_read (ok v) = write_json (dumps v)
  reply_of_read (raised err) = failed err

  abbrev pub reply_of_write : Outcome (Unit {0}) → Reply Body
  reply_of_write (ok u) = empty_reply
  reply_of_write (raised (type_error s)) = http_error (status_code s)
  reply_of_write (raised err) = failed err

  -- `json.dumps` stands in the `try` too.
  abbrev pub result_written : Outcome Body → Reply Body
  result_written (ok b) = written b
  result_written (raised err) = http_error (reason (message_of err))

  abbrev pub reply_of_result : Outcome Value → Reply Body
  reply_of_result (ok v) = result_written (dumps v)
  reply_of_result (raised err) = http_error (reason (message_of err))

  -- `parse_json_body`, and what the handler does with the document
  abbrev pub on_json_body :
      Outcome Value
      → (Value → ExposedThing p → Reply Body × ExposedThing p)
      → ExposedThing p
      → Reply Body × ExposedThing p
  on_json_body (raised err) body e = (http_error (log_message err), e)
  on_json_body (ok v) body e = body v e

  abbrev pub read_body : String → ExposedThing p → Reply Body × ExposedThing p
  read_body name e = let (r, e') = property_read p slugify name e in (reply_of_read r, e')

  abbrev pub write_body : String → Value → ExposedThing p → Reply Body × ExposedThing p
  write_body name v e =
      let (r, e') = handle_write_property p slugify name v e in (reply_of_write r, e')

  abbrev pub invoke_body : String → Value → ExposedThing p → Reply Body × ExposedThing p
  invoke_body name v e = let (r, e') = action_invoke p slugify name v e in (reply_of_result r, e')

  -- `check` is `_check_credentials` of the server for a title and the request's header.
  module _ (check : String → Outcome Bool) where
    unfoldable pub authorized :
        String
        → (ExposedThing p → Reply Body × ExposedThing p)
        → List (ExposedThing p)
        → Reply Body × List (ExposedThing p)
    unfolding on_exposed_thing
    authorized thing_name body =
        on_exposed_thing thing_name (λ e. if_valid thing_name (check e.thing.title) body e)

    unfoldable pub property_get :
        String → String → List (ExposedThing p) → Reply Body × List (ExposedThing p)
    unfolding authorized
    property_get thing_name name = authorized thing_name (read_body name)

    unfoldable pub property_put :
        String → String → Body → List (ExposedThing p) → Reply Body × List (ExposedThing p)
    unfolding authorized
    property_put thing_name name body =
        authorized thing_name (on_json_body (loads body) (write_body name))

    unfoldable pub action_post :
        String → String → Body → List (ExposedThing p) → Reply Body × List (ExposedThing p)
    unfolding authorized
    action_post thing_name name body =
        authorized thing_name (on_json_body (loads body) (invoke_body name))

-- The handlers of subscriptions wait on a future: what the subscription sends first sets it.
pub data Signal (A : Type 0) : Type 0 where
  next : A → Signal A
  stream_error : Error → Signal A

module _ {A : Type 0} where
  abbrev pub result_of : Signal A → Outcome A
  result_of (next a) = ok a
  result_of (stream_error err) = raised err

  -- `not future_next.done() and future_next.set_...`
  abbrev pub set_future : Option (Outcome A) → Outcome A → Option (Outcome A)
  set_future none r = some r
  set_future (some q) r = some q

  -- the future after the signals; none while it waits
  unfoldable pub future_next : Option (Outcome A) → List (Signal A) → Option (Outcome A)
  future_next future [] = future
  future_next future (signal ∷ signals) = future_next (set_future future (result_of signal)) signals
