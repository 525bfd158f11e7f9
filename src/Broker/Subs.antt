-- ===== src/Broker/Subs.antt =====
-- handlers/subs.py: the subscriptions of a server to the interactions of its ExposedThings. A Thing and
-- an interaction stand for their identities. Sets are lists: the order in which Python visits a set is
-- that of the list.
use wotpy.Prelude.{
  ℕ, ◌+◌, Bool, not, Option, none, some, List, [], ◌∷◌, ◌++◌, ◌==◌, nat_eq, keep, any,
  if◌then◌else◌,
}
use wotpy.Outcome.{Outcome, ok, raised, key_error}
use wotpy.Dict
use wotpy.Dict.{Dict, keys, values}
use wotpy.Thing.{Interaction, InteractionType, property, Thing}

-- A subscription, and the interaction that the error callback made with it speaks of.
pub record Subscription : Type 0 where
  pub serial : ℕ
  pub on_error_target : ℕ

pub record Subscriber : Type 0 where
  pub interaction_type : InteractionType
  pub subs : Dict ℕ (Dict ℕ Subscription)
  pub next_serial : ℕ
  pub disposed : List ℕ

abbrev pub Subs : Type 0
Subs = Dict ℕ Subscription

abbrev pub serials : Subs → List ℕ
serials [] = []
serials ((k, sub) ∷ d) = sub.serial ∷ serials d

abbrev pub is_in : ℕ → List ℕ → Bool
is_in x = any (λ y. y == x)

abbrev pub subs_of : Option Subs → Subs
subs_of none = []
subs_of (some d) = d

abbrev pub dispose_found : ℕ → Option Subs → Subscriber → Subscriber
dispose_found thing none s = s
dispose_found thing (some d) s = record s {
  subs = Dict.pop thing s.subs;
  disposed = s.disposed ++ serials d;
}

unfoldable pub dispose_exposed_thing_subs : ℕ → Subscriber → Subscriber
dispose_exposed_thing_subs thing s = dispose_found thing (Dict.get thing s.subs) s

abbrev pub dispose_things : List ℕ → Subscriber → Subscriber
dispose_things [] s = s
dispose_things (t ∷ ts) s = dispose_things ts (dispose_exposed_thing_subs t s)

unfoldable pub dispose : Subscriber → Subscriber
unfolding dispose_exposed_thing_subs
dispose s = dispose_things (keys s.subs) s

abbrev oids : List Interaction → List ℕ
oids [] = []
oids (i ∷ is) = i.oid ∷ oids is

-- `_get_exposed_thing_interaction_set`
unfoldable pub expected : InteractionType → Thing → List ℕ
expected property t =
    oids (keep (λ (i : Interaction). i.init_dict.observable) (values t.properties))
expected _ t = oids (values t.events)

-- `for intrc in intrc_remove: dispose, pop`
abbrev pub drop_unexpected : List ℕ → Subs → Subs
drop_unexpected wanted [] = []
drop_unexpected wanted ((k, sub) ∷ d) =
    let rest = drop_unexpected wanted d in if is_in k wanted then (k, sub) ∷ rest else rest

abbrev pub unexpected : List ℕ → Subs → List ℕ
unexpected wanted [] = []
unexpected wanted ((k, sub) ∷ d) =
    let rest = unexpected wanted d in if is_in k wanted then rest else sub.serial ∷ rest

abbrev pub last_or : ℕ → List ℕ → ℕ
last_or x [] = x
last_or x (y ∷ ys) = last_or y ys

-- The loop over `intrc_new`. Its error callbacks close over the variable of the loop, which has the
-- last interaction once the loop is done.
abbrev pub subscribe_new : ℕ → ℕ → List ℕ → Subs → Subs
subscribe_new last serial [] d = d
subscribe_new last serial (i ∷ is) d =
    subscribe_new last (serial + 1) is
      (Dict.set i (record { serial = serial; on_error_target = last }) d)

abbrev pub new_of : List ℕ → Subs → List ℕ
new_of wanted d = keep (λ i. not (Dict.contains i d)) wanted

abbrev pub count : List ℕ → ℕ
count [] = 0
count (x ∷ xs) = count xs + 1

abbrev pub refreshed : List ℕ → ℕ → Subs → Subs
refreshed wanted serial d =
    let kept = drop_unexpected wanted d in
    let new = new_of wanted kept in subscribe_new (last_or 0 new) serial new kept

-- `_refresh_exposed_thing_subs`
unfoldable pub refresh_exposed_thing_subs : Thing → Subscriber → Subscriber
unfolding expected
refresh_exposed_thing_subs t s =
    let d = subs_of (Dict.get t.oid s.subs) in
    let wanted = expected s.interaction_type t in
    record s {
      subs = Dict.set t.oid (refreshed wanted s.next_serial d) s.subs;
      next_serial = s.next_serial + count (new_of wanted (drop_unexpected wanted d));
      disposed = s.disposed ++ unexpected wanted d;
    }

abbrev pub refresh_things : List Thing → Subscriber → Subscriber
refresh_things [] s = s
refresh_things (t ∷ ts) s = refresh_things ts (refresh_exposed_thing_subs t s)

abbrev pub thing_oids : List Thing → List ℕ
thing_oids [] = []
thing_oids (t ∷ ts) = t.oid ∷ thing_oids ts

unfoldable pub refresh : List Thing → Subscriber → Subscriber
unfolding dispose_exposed_thing_subs refresh_exposed_thing_subs
refresh things s =
    refresh_things things
      (dispose_things (keep (λ t. not (is_in t (thing_oids things))) (keys s.subs)) s)

abbrev pub error_in :
    ℕ → Subs → ℕ → Option Subscription → Subscriber → Outcome (Unit {0}) × Subscriber
error_in thing d target none s = (raised (key_error "intrc"), s)
error_in thing d target (some sub) s = (
  ok tt,
  record s {
    subs = Dict.set thing (Dict.pop target d) s.subs;
    disposed = s.disposed ++ sub.serial ∷ [];
  },
)

abbrev pub error_at : ℕ → Subs → Option Subscription → Subscriber → Outcome (Unit {0}) × Subscriber
error_at thing d none s = (ok tt, s)
error_at thing d (some failed) s =
    error_in thing d failed.on_error_target (Dict.get failed.on_error_target d) s

-- The error callback of a subscription that the Thing has for an interaction.
unfoldable pub on_error : ℕ → ℕ → Subscriber → Outcome (Unit {0}) × Subscriber
on_error thing intrc s =
    let d = subs_of (Dict.get thing s.subs) in error_at thing d (Dict.get intrc d) s
