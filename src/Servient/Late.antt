-- ===== src/Servient/Late.antt =====
-- A server that is added after a Thing was enabled does not get the Thing, and then the Thing cannot
-- be disabled.
use wotpy.Prelude.{
  ℕ, String, ◌≡◌, ◌∙◌, refl, ap, true, false, Option, none, some, [], ◌∷◌, ◌++◌, nat_eq, string_eq,
  arith,
}
use wotpy.Outcome.{Outcome, ok, raised, is_ok, go_on, modify}
use wotpy.Dict
use wotpy.Dict.{Dict, values, pop}
use wotpy.Dict.Laws.{set-new}
use wotpy.Thing.{Op}
use wotpy.ThingSet.{ExposedRef, ThingSet, find_by_thing_title}
use wotpy.ThingSet.Lookup.{IsKeyed, remove_lem}
use wotpy.Servient.Forms.{Heap, Server, visit, visit_rest}
use wotpy.Servient.Defs.{
  Servient, mem, set_remove, server_remove, server_round, disable_exposed_thing, for_each_server,
  disable_found, add_server,
}

-- A loop that meets a value on which its body always fails does not end well.
module _ {K A W : Type 0} (body : A → W → Outcome (Unit {0}) × (A × W)) (a : A)
    (fails : (w : W) → is_ok (body a w).0 ≡ false) where
  visit_fails :
      (c : Dict K A) (k : K) (d : Dict K A) (w : W)
      → is_ok (visit body (c ++ (k, a) ∷ d) w).0 ≡ false
  visit_fails [] k d w = go (body a w) (fails w)
    where
      go :
          (r : Outcome (Unit {0}) × (A × W))
          → is_ok r.0 ≡ false
          → is_ok (visit_rest k d r (visit body d)).0 ≡ false
      go (ok _, (a', w')) h = absurd (ground arith)
      go (raised e, (a', w')) h = refl
  visit_fails ((j, b) ∷ c) k d w = go (body b w) (visit_fails c k d)
    where
      go :
          (r : Outcome (Unit {0}) × (A × W))
          → ((w : W) → is_ok (visit body (c ++ (k, a) ∷ d) w).0 ≡ false)
          → is_ok (visit_rest j (c ++ (k, a) ∷ d) r (visit body (c ++ (k, a) ∷ d))).0 ≡ false
      go (ok _, (b', w')) more = more w'
      go (raised e, (b', w')) more = refl

module _ (slugify : String → String) (hash : Option String → String → String → Op → ℕ) where
  remove_round_fails :
      (hostname : String) (things : ThingSet) (title : String) (server : Server) (heap : Heap)
      → IsKeyed server.exposed_thing_set
      → find_by_thing_title slugify title server.exposed_thing_set ≡ none
      → is_ok
          (server_round slugify hash hostname things
            (server_remove slugify hash title)
            server
            heap).0
        ≡ false
  unfolding server_remove
  remove_round_fails hostname things title server heap k f =
      ground (arith, remove_lem slugify title server.exposed_thing_set k)

  fail_step :
      (r : Outcome (Unit {0}) × Servient) (f : Servient → Servient)
      → is_ok r.0 ≡ false
      → (is_ok (go_on r.0 (λ _. modify f) r.1).0 ≡ false)
        × ((go_on r.0 (λ _. modify f) r.1).1 ≡ r.1)
  fail_step (ok _, s) f h = absurd (ground arith)
  fail_step (raised e, s) f h = (refl, refl)

  add_server_last :
      (s : Servient) (server : Server)
      → s.is_running ≡ false
      → Dict.contains server.protocol s.servers ≡ false
      → (add_server server s).1 ≡ record s { servers = s.servers ++ (server.protocol, server) ∷ [] }
  unfolding add_server
  add_server_last s server stopped new = ground (arith, set-new server.protocol server s.servers)

  disable_fails :
      (s : Servient) (c : Dict String Server) (server : Server) (x : ExposedRef)
      → s.servers ≡ c ++ (server.protocol, server) ∷ []
      → IsKeyed server.exposed_thing_set
      → find_by_thing_title slugify x.title server.exposed_thing_set ≡ none
      → mem x.title s.enabled_titles ≡ true
      → (is_ok (disable_found slugify hash x s).0 ≡ false)
        × (mem x.title (disable_found slugify hash x s).1.enabled_titles ≡ true)
  disable_fails s c server x e k f on =
      let loop = for_each_server slugify hash (server_remove slugify hash x.title) s in
      let fails : is_ok loop.0 ≡ false = rw e (
        visit_fails
          (server_round slugify hash s.hostname s.exposed_thing_set
            (server_remove slugify hash x.title))
          server (λ heap. remove_round_fails s.hostname s.exposed_thing_set x.title server heap k f)
          c server.protocol [] s.things) in
      let (no_end, same) =
        fail_step loop (λ s. record s { enabled_titles = set_remove x.title s.enabled_titles })
          fails in
      rw on (no_end, ap (λ (q : Servient). mem x.title q.enabled_titles) same ∙ on)

  find_in_empty :
      (title : String) (set : ThingSet)
      → set ≡ []
      → IsKeyed set × (find_by_thing_title slugify title set ≡ none)
  unfolding find_by_thing_title
  find_in_empty title set e = rw e (tt, refl)

  -- A stopped servient takes a server of a new protocol that has no Things of its own. If a Thing was enabled before,
  -- `disable_exposed_thing` of that Thing then raises, and the Thing stays enabled.
  pub disable_after_add_server :
      (s : Servient) (server : Server) (title : String) (x : ExposedRef)
      → s.is_running ≡ false
      → Dict.contains server.protocol s.servers ≡ false
      → server.exposed_thing_set ≡ []
      → find_by_thing_title slugify title s.exposed_thing_set ≡ some x
      → mem x.title s.enabled_titles ≡ true
      → let u = disable_exposed_thing slugify hash title (add_server server s).1 in
        (is_ok u.0 ≡ false) × (mem x.title u.1.enabled_titles ≡ true)
  unfolding disable_exposed_thing
  disable_after_add_server s server title x stopped new empty f on =
      let (k, absent) = find_in_empty x.title server.exposed_thing_set empty in
      rw (add_server_last s server stopped new, f)
        (disable_fails (record s { servers = s.servers ++ (server.protocol, server) ∷ [] })
          s.servers server x refl k absent on)
