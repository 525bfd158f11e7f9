-- ===== src/Servient/Defs.antt =====
-- The state and the operations of `Servient` (wotpy/wot/servient.py), and the operations of
-- `BaseProtocolServer` (wotpy/protocols/server.py) that it calls.
use wotpy.Prelude.{
  ℕ, String, Bool, true, false, not, Option, none, some, List, [], ◌∷◌, ◌==◌, nat_eq, string_eq,
  keep, if◌then◌else◌,
}
use wotpy.Outcome.{
  Outcome, ok, raised, Exec, pure, lift, modify, from_option, ◌>>=◌, ◌>>◌, for_each, value_error,
  servient_state,
}
use wotpy.Dict
use wotpy.Dict.{Dict, values, keys}
pub use wotpy.Sets.{mem, set_add, set_remove}
use wotpy.Thing.{Op}
use wotpy.ThingSet
use wotpy.ThingSet.{ThingSet, ExposedRef, find_by_thing_title}
use wotpy.Servient.Forms.{Heap, Server, visit, regenerate_server_forms, clean_all_forms}

-- A client of a protocol binding: `supports` is `is_supported_interaction` of a description and a
-- name, for the description at hand.
pub record Client : Type 0 where
  pub protocol : String
  pub supports : String → Bool

pub record Servient : Type 0 where
  pub hostname : String
  pub servers : Dict String Server
  pub clients : Dict String Client
  pub catalogue_port : Option ℕ
  pub catalogue_server : Option ℕ
  pub exposed_thing_set : ThingSet
  pub is_running : Bool
  pub create_default_forms : Bool
  pub enabled_titles : List String
  pub credential_store : Dict String (Dict String String)
  pub things : Heap

abbrev pub Action : Type 0 → Type 0
Action A = Exec Servient A

-- `_stopped_servient_only`
unfoldable pub stopped_only : (Servient → Servient) → Action (Unit {0})
stopped_only func servient =
    if servient.is_running
    then (raised (servient_state "Attempted to modify the Servient while it was running"), servient)
    else (ok tt, func servient)

unfoldable pub set_catalogue_port : Option ℕ → Action (Unit {0})
unfolding stopped_only
set_catalogue_port port = stopped_only (λ s. record s { catalogue_port = port })

unfoldable pub disable_td_catalogue : Action (Unit {0})
unfolding stopped_only
disable_td_catalogue = stopped_only (λ s. record s { catalogue_port = none })

unfoldable pub add_client : Client → Action (Unit {0})
unfolding stopped_only
add_client client =
    stopped_only (λ s. record s { clients = Dict.set client.protocol client s.clients })

unfoldable pub remove_client : String → Action (Unit {0})
unfolding stopped_only
remove_client protocol = stopped_only (λ s. record s { clients = Dict.pop protocol s.clients })

unfoldable pub add_server : Server → Action (Unit {0})
unfolding stopped_only
add_server server =
    stopped_only (λ s. record s { servers = Dict.set server.protocol server s.servers })

unfoldable pub remove_server : String → Action (Unit {0})
unfolding stopped_only
remove_server protocol = stopped_only (λ s. record s { servers = Dict.pop protocol s.servers })

-- `not port`: no port, or port 0
abbrev disabled : Option ℕ → Bool
disabled none = true
disabled (some port) = port == 0

abbrev start_catalogue_from : Option ℕ → Servient → Servient
start_catalogue_from none s =
    if disabled s.catalogue_port then s else record s { catalogue_server = s.catalogue_port }
start_catalogue_from (some server) s = s

unfoldable pub start_catalogue : Servient → Servient
start_catalogue s = start_catalogue_from s.catalogue_server s

unfoldable pub stop_catalogue : Servient → Servient
stop_catalogue s = record s { catalogue_server = none }

-- The dictionaries of credentials of each Thing are merged.
abbrev merge : Dict String String → Dict String String → Dict String String
merge d [] = d
merge d ((k, v) ∷ more) = merge (Dict.set k v d) more

abbrev merge_into : Option (Dict String String) → Dict String String → Dict String String
merge_into none creds = creds
merge_into (some old) creds = merge old creds

unfoldable pub add_credentials : Dict String (Dict String String) → Servient → Servient
add_credentials [] s = s
add_credentials ((thing_name, creds) ∷ more) s = add_credentials more (record s {
  credential_store =
      Dict.set thing_name (merge_into (Dict.get thing_name s.credential_store) creds)
        s.credential_store;
})

unfoldable pub retrieve_credentials : String → Servient → Option (Dict String String)
retrieve_credentials title s = Dict.get title s.credential_store

-- `enabled_exposed_things`
unfoldable pub enabled_exposed_things : Servient → List ExposedRef
enabled_exposed_things s =
    keep (λ (x : ExposedRef). mem x.title s.enabled_titles) (values s.exposed_thing_set)

unfoldable pub add_exposed_thing : ExposedRef → Action (Unit {0})
add_exposed_thing x s =
    (do
      things ← lift (ThingSet.add x s.exposed_thing_set)
      modify (λ s. record s { exposed_thing_set = things }))
      s

module _ (slugify : String → String) (hash : Option String → String → String → Op → ℕ) where
  unfoldable pub get_exposed_thing : String → Action ExposedRef
  get_exposed_thing thing_title s =
      from_option (value_error "Unknown ExposedThing")
        (find_by_thing_title slugify thing_title s.exposed_thing_set) s

  abbrev pub store_set : Server → Outcome ThingSet → Outcome (Unit {0}) × Server
  store_set server (raised e) = (raised e, server)
  store_set server (ok things) = (ok tt, record server { exposed_thing_set = things })

  -- `server.add_exposed_thing(x)`, `server.remove_exposed_thing(title)`
  unfoldable pub server_add : ExposedRef → Exec Server (Unit {0})
  server_add x server = store_set server (ThingSet.add x server.exposed_thing_set)

  unfoldable pub server_remove : String → Exec Server (Unit {0})
  server_remove title server =
      store_set server (ThingSet.remove slugify title server.exposed_thing_set)

  -- One round of the loops of `enable_exposed_thing` and `disable_exposed_thing`: the change of the
  -- server, then `_regenerate_server_forms`.
  abbrev pub regenerate_after :
      String → ThingSet → Outcome (Unit {0}) × Server → Heap → Outcome (Unit {0}) × (Server × Heap)
  regenerate_after hostname things (raised e, server) heap = (raised e, (server, heap))
  regenerate_after hostname things (ok _, server) heap =
      let (r, heap') = regenerate_server_forms hash hostname things server heap in
      (r, (server, heap'))

  abbrev pub server_round :
      String
      → ThingSet
      → Exec Server (Unit {0})
      → Server
      → Heap
      → Outcome (Unit {0}) × (Server × Heap)
  server_round hostname things change server heap =
      regenerate_after hostname things (change server) heap

  abbrev pub for_each_server : Exec Server (Unit {0}) → Action (Unit {0})
  for_each_server change s =
      let (r, (servers', heap)) =
        visit (server_round s.hostname s.exposed_thing_set change) s.servers s.things in
      (r, record s { servers = servers'; things = heap })

  abbrev pub enable_found : ExposedRef → Action (Unit {0})
  enable_found x =
      for_each_server (server_add x)
      >> modify (λ s. record s { enabled_titles = set_add x.title s.enabled_titles })

  unfoldable pub enable_exposed_thing : String → Action (Unit {0})
  unfolding get_exposed_thing
  enable_exposed_thing thing_title = do x ← get_exposed_thing thing_title; enable_found x

  abbrev pub disable_found : ExposedRef → Action (Unit {0})
  disable_found x s =
      if not (mem x.title s.enabled_titles)
      then (raised (value_error "ExposedThing is already disabled"), s)
      else (for_each_server (server_remove x.title)
            >> modify (λ s. record s { enabled_titles = set_remove x.title s.enabled_titles }))
          s

  unfoldable pub disable_exposed_thing : String → Action (Unit {0})
  unfolding get_exposed_thing
  disable_exposed_thing thing_title = do x ← get_exposed_thing thing_title; disable_found x

  abbrev pub remove_from_set : String → Action (Unit {0})
  remove_from_set thing_title s =
      (do
        things ← lift (ThingSet.remove slugify thing_title s.exposed_thing_set)
        modify (λ s. record s { exposed_thing_set = things }))
        s

  unfoldable pub remove_exposed_thing : String → Action (Unit {0})
  unfolding disable_exposed_thing
  remove_exposed_thing thing_title s =
      (do
        (if mem thing_title s.enabled_titles then disable_exposed_thing thing_title else pure tt)
        remove_from_set thing_title)
        s

  -- `refresh_forms`
  abbrev refresh_servers : List Server → String → ThingSet → Exec Heap (Unit {0})
  refresh_servers [] hostname things = pure tt
  refresh_servers (server ∷ more) hostname things =
      regenerate_server_forms hash hostname things server >> refresh_servers more hostname things

  unfoldable pub refresh_forms : Action (Unit {0})
  refresh_forms s =
      let (r, heap) =
        (clean_all_forms hash s.exposed_thing_set
            >> refresh_servers (values s.servers) s.hostname s.exposed_thing_set)
          s.things in
      (r, record s { things = heap })

  -- `server.start(self)` and `server.stop()` of the bindings are parameters: whether each raises.
  module _ (start_server stop_server : Server → Outcome (Unit {0})) where
    unfoldable pub start : Action (Unit {0})
    unfolding refresh_forms start_catalogue
    start s =
        (do
          (if s.create_default_forms then refresh_forms else pure tt)
          for_each (λ server. lift (start_server server)) (values s.servers)
          modify (λ s. record (start_catalogue s) { is_running = true }))
          s

    unfoldable pub shutdown : Action (Unit {0})
    unfolding stop_catalogue
    shutdown s =
        (do
          for_each (λ server. lift (stop_server server)) (values s.servers)
          modify (λ s. record (stop_catalogue s) { is_running = false }))
          s
