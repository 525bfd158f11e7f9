-- ===== src/Http/Addresses.antt =====
-- The forms of an interaction lead to the handlers of that interaction.
use wotpy.Prelude.{
  String, ◌≡◌, refl, true, false, Option, some, List, [], ◌∷◌, ◌++◌, ◌==◌, text_eq, Text, codes,
  split, join, avoids, split-join, map,
}
use wotpy.Thing.{Interaction, InteractionType, property, action, event}
use wotpy.Http.Routes.{
  Route, property_read_write, property_observer, action_invoke_route, event_observer, route,
  short_route, long_route, with_names, HttpForm, origin, path_of, http_build_forms,
  http_forms_property, http_forms_action, http_forms_event,
}

-- A part of a path: not empty, with no slash.
pub record IsPart (s : Text) : Type 0 where
  pub no_slash : avoids b'/' s ≡ true
  pub filled : (s == []) ≡ false

short_path :
    (thing kind name : Text)
    → IsPart thing
    → avoids b'/' kind ≡ true
    → IsPart name
    → split b'/' (join b'/' ([] ∷ thing ∷ kind ∷ name ∷ [])) ≡ [] ∷ thing ∷ kind ∷ name ∷ []
short_path thing kind name ht hk hn =
    split-join b'/' [] (thing ∷ kind ∷ name ∷ []) (refl, (ht.no_slash, (hk, (hn.no_slash, tt))))

long_path :
    (thing kind name : Text)
    → IsPart thing
    → avoids b'/' kind ≡ true
    → IsPart name
    → split b'/' (join b'/' ([] ∷ thing ∷ kind ∷ name ∷ codes "subscription" ∷ []))
      ≡ [] ∷ thing ∷ kind ∷ name ∷ codes "subscription" ∷ []
long_path thing kind name ht hk hn =
    split-join b'/' [] (thing ∷ kind ∷ name ∷ codes "subscription" ∷ [])
      (refl, (ht.no_slash, (hk, (hn.no_slash, (refl, tt)))))

-- What the forms of an interaction ask for, by its kind.
abbrev pub routes_for : InteractionType → List Route
routes_for property = property_read_write ∷ property_observer ∷ []
routes_for action = action_invoke_route ∷ []
routes_for event = event_observer ∷ []

-- The text behind a prefix of a known length: what a client sends of an address that begins with
-- scheme, host and port.
abbrev pub behind : Text → Text → Text
behind [] s = s
behind (c ∷ t) [] = []
behind (c ∷ t) (d ∷ s) = behind t s

behind-append : (t s : Text) → behind t (t ++ s) ≡ s
behind-append [] s = refl
behind-append (c ∷ t) s = behind-append t s

route_short :
    (thing kind name : Text)
    → IsPart thing
    → avoids b'/' kind ≡ true
    → IsPart name
    → route (join b'/' ([] ∷ thing ∷ kind ∷ name ∷ [])) ≡ with_names (short_route kind) thing name
unfolding route
route_short thing kind name ht hk hn = rw (short_path thing kind name ht hk hn) refl

route_long :
    (thing kind name : Text)
    → IsPart thing
    → avoids b'/' kind ≡ true
    → IsPart name
    → route (join b'/' ([] ∷ thing ∷ kind ∷ name ∷ codes "subscription" ∷ []))
      ≡ with_names (long_route kind (codes "subscription")) thing name
unfolding route
route_long thing kind name ht hk hn = rw (long_path thing kind name ht hk hn) refl

module _ (slugify : String → String) (scheme form_port : Text) where
  -- The handler that the path of a form's address leads to, with its arguments
  abbrev pub route_of_form : Text → HttpForm → Option (Route × (Text × Text))
  route_of_form hostname f = route (behind (origin scheme form_port hostname) f.href)

  -- The path of each form of an interaction leads to a handler for that kind of interaction, with the URL
  -- names of the Thing and of the interaction, in the order of the forms, where the
  -- names are not empty and have no slash.
  pub route-http_build_forms :
      (hostname thing : Text) (i : Interaction)
      → IsPart thing
      → IsPart (codes (slugify i.name))
      → map (route_of_form hostname) (http_build_forms slugify scheme form_port hostname thing i)
        ≡ map (λ r. some (r, (thing, codes (slugify i.name)))) (routes_for i.kind)
  unfolding http_build_forms
  route-http_build_forms hostname thing i ht hn =
      let name = codes (slugify i.name) in
      let o = origin scheme form_port hostname in
      elim i.kind
        as (λ k.
          map (route_of_form hostname) (elim k [
            | property ↦ http_forms_property slugify scheme form_port hostname thing i
            | action ↦ http_forms_action slugify scheme form_port hostname thing i
            | event ↦ http_forms_event slugify scheme form_port hostname thing i
          ])
          ≡ map (λ r. some (r, (thing, name))) (routes_for k)) [
            | property ↦
                rw
                  (
                    behind-append o (path_of thing (codes "property" ∷ name ∷ [])),
                    behind-append o
                        (path_of thing (codes "property" ∷ name ∷ codes "subscription" ∷ [])),
                    route_short thing (codes "property") name ht refl hn,
                    route_long thing (codes "property") name ht refl hn,
                    ht.filled,
                    hn.filled,
                  )
                  refl
            | action ↦
                rw
                  (
                    behind-append o (path_of thing (codes "action" ∷ name ∷ [])),
                    route_short thing (codes "action") name ht refl hn,
                    ht.filled,
                    hn.filled,
                  )
                  refl
            | event ↦
                rw
                  (
                    behind-append o
                        (path_of thing (codes "event" ∷ name ∷ codes "subscription" ∷ [])),
                    route_long thing (codes "event") name ht refl hn,
                    ht.filled,
                    hn.filled,
                  )
                  refl
          ]
