-- ===== src/Servient/Sync.antt =====
-- The titles that are enabled are those that every server exposes.
use wotpy.Prelude.{
  ℕ, String, ◌≡◌, refl, ap, Bool-cases, true, false, Option, none, some, List, [], ◌∷◌, nat_eq,
  string_eq, ◌⊎◌, inl, inr, All, arith,
}
use wotpy.Outcome.{Outcome, ok, raised, value_error, is_ok, Exec, go_on, modify, from_option, ◌>>=◌}
use mathlib.Core.Path.{subst}
use wotpy.Dict.{Dict}
use wotpy.Dict.Laws.{contains-pop}
use wotpy.Thing.{Op}
use wotpy.ThingSet
use wotpy.ThingSet.{ExposedRef, ThingSet, is_match, find_by_thing_title}
use wotpy.ThingSet.Lookup.{contains-add, IsKeyed-pop, add-IsKeyed, removed, remove_lem}
use wotpy.Servient.Exposes.{mem-set_add, mem-set_remove, visit-All, Exposes, InSync, IsPlain}
use wotpy.Servient.Forms.{Heap, Server}
use wotpy.Servient.Defs.{
  Servient, mem, set_add, set_remove, server_add, server_remove, server_round, regenerate_after,
  enable_exposed_thing, disable_exposed_thing, for_each_server, store_set, enable_found,
  disable_found,
}

module _ (slugify : String → String) (hash : Option String → String → String → Op → ℕ) where
  regenerate_after-server :
      (hostname : String) (things : ThingSet) (r : Outcome (Unit {0}) × Server) (heap : Heap)
      → is_ok (regenerate_after slugify hash hostname things r heap).0 ≡ true
      → (is_ok r.0 ≡ true) × ((regenerate_after slugify hash hostname things r heap).1.0 ≡ r.1)
  regenerate_after-server hostname things (ok _, server) heap h = (refl, refl)
  regenerate_after-server hostname things (raised e, server) heap h = absurd (ground arith)

  server_add-Exposes :
      (x : ExposedRef) (titles : List String) (server : Server)
      → Exposes titles server
      → is_ok (server_add slugify hash x server).0 ≡ true
      → Exposes (set_add x.title titles) (server_add slugify hash x server).1
  unfolding server_add
  server_add-Exposes x titles server w h = go (ThingSet.add x server.exposed_thing_set) refl h
    where
      go :
          (o : Outcome ThingSet)
          → ThingSet.add x server.exposed_thing_set ≡ o
          → is_ok (store_set slugify hash server o).0 ≡ true
          → Exposes (set_add x.title titles) (store_set slugify hash server o).1
      go (raised e) a h = absurd (ground arith)
      go (ok things) a h = record {
        keyed = add-IsKeyed x server.exposed_thing_set things w.keyed a;
        exposed = λ t. ground (
          arith,
          mem-set_add x.title t titles,
          contains-add x t server.exposed_thing_set things a,
          w.exposed t,
        );
      }

  server_remove-Exposes :
      (title : String) (titles : List String) (server : Server)
      → IsPlain slugify title server
      → Exposes titles server
      → is_ok (server_remove slugify hash title server).0 ≡ true
      → Exposes (set_remove title titles) (server_remove slugify hash title server).1
  unfolding server_remove
  server_remove-Exposes title titles server plain w h =
      rw (remove_lem slugify title server.exposed_thing_set w.keyed) (
        go (find_by_thing_title slugify title server.exposed_thing_set) refl
          (rw (remove_lem slugify title server.exposed_thing_set w.keyed) at h))
    where
      go :
          (o : Option ExposedRef)
          → find_by_thing_title slugify title server.exposed_thing_set ≡ o
          → is_ok (store_set slugify hash server (removed slugify o server.exposed_thing_set)).0
            ≡ true
          → Exposes
              (set_remove title titles)
              (store_set slugify hash server (removed slugify o server.exposed_thing_set)).1
      go none f h = absurd (ground arith)
      go (some y) f h = record {
        keyed = IsKeyed-pop y.title server.exposed_thing_set w.keyed;
        exposed = λ t. rw (plain y f) (
            ground (
              arith,
              mem-set_remove title t titles,
              contains-pop title t server.exposed_thing_set,
              w.exposed t,
            ));
      }

  -- The servers after a loop that ends well.
  for_each_server-All :
      (P Q : Server → Type 0) (change : Exec Server (Unit {0}))
      → ((server : Server) → P server → is_ok (change server).0 ≡ true → Q (change server).1)
      → (s : Servient) → All (λ (k, server). P server) s.servers
      → is_ok (for_each_server slugify hash change s).0 ≡ true
      → All (λ (k, server). Q server) (for_each_server slugify hash change s).1.servers
  for_each_server-All P Q change step s h done =
      visit-All P Q (server_round slugify hash s.hostname s.exposed_thing_set change)
        (λ server heap p fin.
          let (changed, same) =
            regenerate_after-server s.hostname s.exposed_thing_set (change server) heap fin in
          rw same (step server p changed))
        s.servers s.things h done

  -- The last step of both operations.
  last_step :
      (r : Outcome (Unit {0}) × Servient) (f : Servient → Servient) (u : Servient)
      → go_on r.0 (λ _. modify f) r.1 ≡ (ok tt, u)
      → (is_ok r.0 ≡ true) × (f r.1 ≡ u)
  last_step (ok _, s) f u h = (refl, ap (λ (q : Outcome (Unit {0}) × Servient). q.1) h)
  last_step (raised e, s) f u h = absurd (ground arith)

  -- Where every server exposes exactly the enabled titles, an `enable_exposed_thing` that ends well leaves every server with exactly the enabled titles.
  pub enable_exposed_thing-InSync :
      (s u : Servient) (title : String)
      → InSync s
      → enable_exposed_thing slugify hash title s ≡ (ok tt, u)
      → InSync u
  unfolding enable_exposed_thing
  enable_exposed_thing-InSync s u title h e =
      go (find_by_thing_title slugify title s.exposed_thing_set) e
    where
      go :
          (o : Option ExposedRef)
          → (from_option (value_error "Unknown ExposedThing") o >>= enable_found slugify hash) s
            ≡ (ok tt, u)
          → InSync u
      go none e = absurd (ground arith)
      go (some x) e =
          let changed = for_each_server slugify hash (server_add slugify hash x) s in
          let (done, result) =
            last_step changed (λ s. record s { enabled_titles = set_add x.title s.enabled_titles })
              u e in
          subst InSync result (
            for_each_server-All (Exposes s.enabled_titles)
              (Exposes (set_add x.title s.enabled_titles)) (server_add slugify hash x)
              (server_add-Exposes x s.enabled_titles) s h done)

  pub disable_steps :
      (s u : Servient) (title : String) (x : ExposedRef)
      → find_by_thing_title slugify title s.exposed_thing_set ≡ some x
      → disable_exposed_thing slugify hash title s ≡ (ok tt, u)
      → (mem x.title s.enabled_titles ≡ true)
        × (is_ok (for_each_server slugify hash (server_remove slugify hash x.title) s).0 ≡ true)
        × (record (for_each_server slugify hash (server_remove slugify hash x.title) s).1 {
          enabled_titles = set_remove x.title s.enabled_titles;
        }
            ≡ u)
  unfolding disable_exposed_thing
  disable_steps s u title x f e =
      let changed = for_each_server slugify hash (server_remove slugify hash x.title) s in
      let found : disable_found slugify hash x s ≡ (ok tt, u) = ground (arith, f) in
      go (Bool-cases (mem x.title s.enabled_titles)) found
    where
      go :
          (mem x.title s.enabled_titles ≡ true) ⊎ (mem x.title s.enabled_titles ≡ false)
          → disable_found slugify hash x s ≡ (ok tt, u)
          → (mem x.title s.enabled_titles ≡ true)
            × (is_ok (for_each_server slugify hash (server_remove slugify hash x.title) s).0 ≡ true)
            × (record (for_each_server slugify hash (server_remove slugify hash x.title) s).1 {
              enabled_titles = set_remove x.title s.enabled_titles;
            }
                ≡ u)
      go (inr off) found = absurd (ground arith)
      go (inl on) found =
          let (done, result) =
            last_step (for_each_server slugify hash (server_remove slugify hash x.title) s)
              (λ s. record s { enabled_titles = set_remove x.title s.enabled_titles }) u
              (rw on at found) in
          (on, done, result)

  All-zip :
      (P Q : Server → Type 0) (d : Dict String Server)
      → All (λ (k, server). P server) d
      → All (λ (k, server). Q server) d
      → All (λ (k, server). P server × Q server) d
  All-zip P Q [] h k = tt
  All-zip P Q (e ∷ d) h k = ((h.0, k.0), All-zip P Q d h.1 k.1)

  -- Where every server exposes exactly the enabled titles, a `disable_exposed_thing` that ends well leaves every server with exactly the enabled titles, if
  -- on no server the URL name of another Thing is the title.
  pub disable_exposed_thing-InSync :
      (s u : Servient) (title : String) (x : ExposedRef)
      → InSync s
      → find_by_thing_title slugify title s.exposed_thing_set ≡ some x
      → All (λ (k, server). IsPlain slugify x.title server) s.servers
      → disable_exposed_thing slugify hash title s ≡ (ok tt, u)
      → InSync u
  unfolding disable_exposed_thing
  disable_exposed_thing-InSync s u title x h f plain e =
      let (enabled, done, result) = disable_steps s u title x f e in
      subst InSync result (
        for_each_server-All
          (λ server. Exposes s.enabled_titles server × IsPlain slugify x.title server)
          (Exposes (set_remove x.title s.enabled_titles)) (server_remove slugify hash x.title)
          (λ server both. server_remove-Exposes x.title s.enabled_titles server both.1 both.0) s
          (All-zip (Exposes s.enabled_titles) (IsPlain slugify x.title) s.servers h plain) done)
