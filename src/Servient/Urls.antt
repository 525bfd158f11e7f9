-- ===== src/Servient/Urls.antt =====
-- `get_thing_base_url` of wotpy/wot/servient.py.
use Prim.Native.String.{compare}
use Prim.Native.Nat.{Ordering}
use wotpy.Prelude.{
  String, ◌≡◌, ◌∙◌, refl, ap, Bool, Bool-cases, inl, inr, true, false, not, ◌||◌, ◌⊎◌, Option, none,
  some, List, [], ◌∷◌, ◌==◌, string_eq, eq_iff, arith, if◌then◌else◌,
}
use wotpy.Outcome.{Outcome, ok, raised, value_error, key_error}
use wotpy.Dict.{Dict, keys, get, contains}
use wotpy.Thing.{Thing}
use wotpy.ThingSet
use wotpy.ThingSet.{ExposedRef}
use wotpy.Servient.Forms.{Server}
use wotpy.Servient.Defs.{Servient}

abbrev before : String → String → Bool
before a b = elim (compare a b) [ Ordering.gt ↦ false | _ ↦ true ]

abbrev least_of : String → Option String → String
least_of k none = k
least_of k (some j) = if before k j then k else j

-- `sorted(keys)[0]`, where there is a key
abbrev pub first_sorted : List String → Option String
first_sorted [] = none
first_sorted (k ∷ ks) = some (least_of k (first_sorted ks))

-- A base that is an empty text counts as none.
abbrev pub base_of : Thing → Option String
base_of t = elim t.base [ none ↦ none | some b ↦ if b == "" then none else some b ]

abbrev pub protocol_of : Dict String Server → Option String
protocol_of servers = if contains "HTTP" servers then some "HTTP" else first_sorted (keys servers)

abbrev url_of : Servient → Thing → Option Server → Outcome (Option String)
url_of s t none = raised (key_error "protocol")
url_of s t (some server) = ok (some (server.build_base_url s.hostname t))

abbrev pub url_by : Servient → Thing → Option String → Outcome (Option String)
url_by s t none = ok none
url_by s t (some protocol) = url_of s t (get protocol s.servers)

abbrev pub url_without_base : ExposedRef → Servient → Outcome (Option String)
url_without_base x s =
    if not (ThingSet.contains x s.exposed_thing_set)
    then raised (value_error "Unknown ExposedThing")
    else url_by s (s.things x.thing) (protocol_of s.servers)

abbrev url_with : ExposedRef → Servient → Option String → Outcome (Option String)
url_with x s (some b) = ok (some b)
url_with x s none = url_without_base x s

unfoldable pub get_thing_base_url : ExposedRef → Servient → Outcome (Option String)
get_thing_base_url x s = url_with x s (base_of (s.things x.thing))

contains-first_sorted :
    (d : Dict String Server) (k : String) → first_sorted (keys d) ≡ some k → contains k d ≡ true
unfolding contains
contains-first_sorted [] k h = ground arith
contains-first_sorted ((j, v) ∷ d) k h =
    go (first_sorted (keys d)) (λ i e. contains-first_sorted d i e) h
  where
    go :
        (o : Option String)
        → ((i : String) → o ≡ some i → contains i d ≡ true)
        → some (least_of j o) ≡ some k
        → (j == k || contains k d) ≡ true
    go none more h = ground (arith, eq_iff j k)
    go (some i) more h = ground (arith, eq_iff j k, more i refl)

get-contains :
    (d : Dict String Server) (k : String)
    → contains k d ≡ true
    → (server : Server) × (get k d ≡ some server)
unfolding contains get
get-contains [] k h = absurd (ground arith)
get-contains ((j, v) ∷ d) k h = elim (Bool-cases (j == k)) [
  | inl same ↦ (v, rw same refl)
  | inr other ↦ let (server, e) = get-contains d k (ground arith) in (server, rw other e)
]

contains-protocol_of :
    (d : Dict String Server) (k : String) → protocol_of d ≡ some k → contains k d ≡ true
contains-protocol_of d k h = elim (Bool-cases (contains "HTTP" d)) [
  | inl there ↦ ground (arith, there)
  | inr absent ↦ contains-first_sorted d k (ground (arith, absent))
]

protocol_of-none : (d : Dict String Server) → protocol_of d ≡ none → d ≡ []
protocol_of-none [] h = refl
protocol_of-none ((k, v) ∷ d) h = elim (Bool-cases (contains "HTTP" ((k, v) ∷ d))) [
  | inl there ↦ absurd (ground (arith, there))
  | inr absent ↦ absurd (ground (arith, absent))
]

get_thing_base_url-eq_url_by :
    (s : Servient) (x : ExposedRef)
    → base_of (s.things x.thing) ≡ none
    → ThingSet.contains x s.exposed_thing_set ≡ true
    → get_thing_base_url x s ≡ url_by s (s.things x.thing) (protocol_of s.servers)
unfolding get_thing_base_url
get_thing_base_url-eq_url_by s x b known =
    ap (url_with x s) b
    ∙ ap
        (λ k.
          if not k
          then raised (value_error "Unknown ExposedThing")
          else url_by s (s.things x.thing) (protocol_of s.servers))
        known

-- For a Thing of the servient that has no base of its own, `get_thing_base_url` never raises: it
-- returns None where there is no server, and else the base URL that one of the servers builds, which
-- is the HTTP server where there is one.
pub get_thing_base_url_lem :
    (s : Servient) (x : ExposedRef)
    → base_of (s.things x.thing) ≡ none
    → ThingSet.contains x s.exposed_thing_set ≡ true
    → ((s.servers ≡ []) × (get_thing_base_url x s ≡ ok none))
      ⊎ ((protocol : String) × (server : Server) × (get protocol s.servers ≡ some server)
          × ((protocol ≡ "HTTP") ⊎ (contains "HTTP" s.servers ≡ false))
          × (get_thing_base_url x s
              ≡ ok (some (server.build_base_url s.hostname (s.things x.thing)))))
get_thing_base_url_lem s x b known =
    rw (get_thing_base_url-eq_url_by s x b known) (go (protocol_of s.servers) refl)
  where
    go :
        (o : Option String)
        → protocol_of s.servers ≡ o
        → ((s.servers ≡ []) × (url_by s (s.things x.thing) o ≡ ok none))
          ⊎ ((protocol : String) × (server : Server) × (get protocol s.servers ≡ some server)
              × ((protocol ≡ "HTTP") ⊎ (contains "HTTP" s.servers ≡ false))
              × (url_by s (s.things x.thing) o
                  ≡ ok (some (server.build_base_url s.hostname (s.things x.thing)))))
    go none e = inl (protocol_of-none s.servers e, refl)
    go (some k) e =
        let (server, found) = get-contains s.servers k (contains-protocol_of s.servers k e) in
        let preferred : (k ≡ "HTTP") ⊎ (contains "HTTP" s.servers ≡ false) =
          elim (Bool-cases (contains "HTTP" s.servers)) [
            | inl there ↦ inl (ground arith)
            | inr absent ↦ inr absent
          ] in
        inr (k, server, found, preferred, rw found refl)
