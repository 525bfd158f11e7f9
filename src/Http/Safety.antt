-- ===== src/Http/Safety.antt =====
-- Requests that are not authorized change nothing, and the others reach one Thing.
use wotpy.Prelude.{
  String, ◌≡◌, ◌≢◌, refl, ap, Bool, Bool-cases, inl, inr, true, false, List, [], ◌∷◌, ◌++◌,
  string_eq, All,
}
use wotpy.Outcome.{Outcome, ok, raised}
use wotpy.Exposed.{Platform, ExposedThing}
use wotpy.Http.Handlers.{
  Codec, Reply, is_named, on_exposed_thing, if_valid, authorized, property_get, property_put,
  action_post, on_json_body, read_body, write_body, invoke_body,
}

module _ (p : Platform) (c : Codec p) where
  open p use {Value}
  open c use {Body, loads, dumps, slugify}

  -- No Thing of the server accepts the credentials.
  abbrev pub AreRefusing : (String → Outcome Bool) → List (ExposedThing p) → Type 0
  AreRefusing check = All (λ e. check e.thing.title ≢ ok true)

  if_valid_refused :
      (name : String) (r : Outcome Bool) (body : ExposedThing p → Reply Body × ExposedThing p)
      (e : ExposedThing p)
      → r ≢ ok true
      → (if_valid p c name r body e).1 ≡ e
  if_valid_refused name (raised err) body e h = refl
  if_valid_refused name (ok false) body e h = refl
  if_valid_refused name (ok true) body e h = elim (h refl) [ ]

  authorized_refused :
      (check : String → Outcome Bool) (name : String)
      (body : ExposedThing p → Reply Body × ExposedThing p) (things : List (ExposedThing p))
      → AreRefusing check things
      → (authorized p c check name body things).1 ≡ things
  unfolding authorized on_exposed_thing
  authorized_refused check name body [] h = refl
  authorized_refused check name body (e ∷ es) h = elim (Bool-cases (is_named p c name e)) [
    | inl h_yes ↦
        rw h_yes (ap (λ x. x ∷ es) (if_valid_refused name (check e.thing.title) body e h.0))
    | inr h_no ↦ rw h_no (ap (λ xs. e ∷ xs) (authorized_refused check name body es h.1))
  ]

  -- A request whose credentials no Thing of the server accepts changes no Thing: not by a read, not by
  -- a write and not by the invocation of an action.
  pub requests-AreRefusing :
      (check : String → Outcome Bool) (thing_name name : String) (body : Body)
      (things : List (ExposedThing p))
      → AreRefusing check things
      → ((property_get p c check thing_name name things).1 ≡ things)
        × ((property_put p c check thing_name name body things).1 ≡ things)
        × ((action_post p c check thing_name name body things).1 ≡ things)
  unfolding property_get property_put action_post
  requests-AreRefusing check thing_name name body things h = (
    authorized_refused check thing_name (read_body p c name) things h,
    authorized_refused check thing_name (on_json_body p c (loads body) (write_body p c name)) things
        h,
    authorized_refused check thing_name (on_json_body p c (loads body) (invoke_body p c name))
        things h,
  )

  -- The Things before have other names.
  abbrev pub AreOthers : String → List (ExposedThing p) → Type 0
  AreOthers name = All (λ x. is_named p c name x ≡ false)

  pub authorized_found :
      (check : String → Outcome Bool) (name : String)
      (body : ExposedThing p → Reply Body × ExposedThing p) (xs ys : List (ExposedThing p))
      (e : ExposedThing p)
      → AreOthers name xs
      → is_named p c name e ≡ true
      → check e.thing.title ≡ ok true
      → authorized p c check name body (xs ++ e ∷ ys) ≡ ((body e).0, xs ++ (body e).1 ∷ ys)
  unfolding authorized on_exposed_thing
  authorized_found check name body [] ys e h named valid = rw (named, valid) refl
  authorized_found check name body (x ∷ xs) ys e h named valid =
      rw (h.0, authorized_found check name body xs ys e h.1 named valid) refl
