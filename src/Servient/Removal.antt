-- ===== src/Servient/Removal.antt =====
-- `remove_exposed_thing` by a title and by a URL name.
use wotpy.Prelude.{
  ℕ, String, ◌≡◌, ◌∙◌, refl, ap, sym, Bool-cases, true, false, Option, some, nat_eq, string_eq,
  eq_iff, inl, inr, All, arith,
}
use wotpy.Outcome.{Outcome, ok, raised, go_on}
use mathlib.Core.Path.{subst}
use wotpy.Dict
use wotpy.Dict.{Dict, values, pop}
use wotpy.Dict.Laws.{contains-pop}
use wotpy.Thing.{Op}
use wotpy.ThingSet.{ExposedRef, find_by_thing_title}
use wotpy.ThingSet.Lookup.{IsKeyed, remove_lem}
use wotpy.Servient.Exposes.{mem-set_remove, InSync, IsPlain}
use wotpy.Servient.Defs.{
  Servient, mem, disable_exposed_thing, remove_exposed_thing, remove_from_set,
}
use wotpy.Servient.Sync.{disable_exposed_thing-InSync, disable_steps}

module _ (slugify : String → String) (hash : Option String → String → String → Op → ℕ) where
  remove_not_enabled :
      (s : Servient) (url : String) (x : ExposedRef)
      → IsKeyed s.exposed_thing_set
      → find_by_thing_title slugify url s.exposed_thing_set ≡ some x
      → mem url s.enabled_titles ≡ false
      → remove_exposed_thing slugify hash url s
        ≡ (ok tt, record s { exposed_thing_set = pop x.title s.exposed_thing_set })
  unfolding remove_exposed_thing
  remove_not_enabled s url x k f off = ground (arith, remove_lem slugify url s.exposed_thing_set k)

  -- `remove_exposed_thing` of the URL name of an enabled Thing ends well and takes the Thing out of the
  -- servient, but does not disable it: the title stays enabled, and the servers stay as they are and
  -- go on exposing the Thing.
  pub remove_exposed_thing_url_name :
      (s : Servient) (url : String) (x : ExposedRef)
      → IsKeyed s.exposed_thing_set
      → find_by_thing_title slugify url s.exposed_thing_set ≡ some x
      → mem url s.enabled_titles ≡ false
      → mem x.title s.enabled_titles ≡ true
      → let u = remove_exposed_thing slugify hash url s in
        (u.0 ≡ ok tt)
        × (Dict.contains x.title u.1.exposed_thing_set ≡ false)
        × (mem x.title u.1.enabled_titles ≡ true)
        × (u.1.servers ≡ s.servers)
  remove_exposed_thing_url_name s url x k f off on = rw (remove_not_enabled s url x k f off) (
    refl,
    ground (arith, contains-pop x.title x.title s.exposed_thing_set, eq_iff x.title x.title),
    on,
    refl,
  )

  remove_from_set_lem :
      (s u : Servient) (title : String) (x : ExposedRef)
      → IsKeyed s.exposed_thing_set
      → find_by_thing_title slugify title s.exposed_thing_set ≡ some x
      → remove_from_set slugify hash title s ≡ (ok tt, u)
      → u ≡ record s { exposed_thing_set = pop x.title s.exposed_thing_set }
  remove_from_set_lem s u title x k f h =
      ground (arith, remove_lem slugify title s.exposed_thing_set k)

  -- What `disable_exposed_thing` does to the other parts of the servient.
  disable_leaves :
      (s u : Servient) (title : String) (x : ExposedRef)
      → find_by_thing_title slugify title s.exposed_thing_set ≡ some x
      → disable_exposed_thing slugify hash title s ≡ (ok tt, u)
      → (u.exposed_thing_set ≡ s.exposed_thing_set) × (mem x.title u.enabled_titles ≡ false)
  disable_leaves s u title x f e =
      let (on, done, result) = disable_steps slugify hash s u title x f e in
      (
        sym (ap (λ (q : Servient). q.exposed_thing_set) result),
        rw (← ap (λ (q : Servient). q.enabled_titles) result) (
            mem-set_remove x.title x.title s.enabled_titles
            ∙ ground (arith, eq_iff x.title x.title)),
      )

  remove_steps :
      (s u : Servient) (title : String)
      → remove_exposed_thing slugify hash title s ≡ (ok tt, u)
      → mem title s.enabled_titles ≡ true
      → (s' : Servient) × (disable_exposed_thing slugify hash title s ≡ (ok tt, s'))
        × (remove_from_set slugify hash title s' ≡ (ok tt, u))
  unfolding remove_exposed_thing
  remove_steps s u title h on = go (disable_exposed_thing slugify hash title s) refl (rw on at h)
    where
      go :
          (r : Outcome (Unit {0}) × Servient)
          → disable_exposed_thing slugify hash title s ≡ r
          → go_on r.0 (λ _. remove_from_set slugify hash title) r.1 ≡ (ok tt, u)
          → (s' : Servient) × (disable_exposed_thing slugify hash title s ≡ (ok tt, s'))
            × (remove_from_set slugify hash title s' ≡ (ok tt, u))
      go (ok _, s') e h = (s', e, h)
      go (raised x, s') e h = absurd (ground arith)

  -- Where every server exposes exactly the enabled titles, a `remove_exposed_thing` of a title that ends
  -- well keeps it so, and the title is neither enabled nor in the servient any more, if the title finds a Thing of that
  -- title, in the servient and on the servers.
  pub remove_exposed_thing_title :
      (s u : Servient) (x : ExposedRef)
      → InSync s
      → IsKeyed s.exposed_thing_set
      → find_by_thing_title slugify x.title s.exposed_thing_set ≡ some x
      → All (λ (k, server). IsPlain slugify x.title server) s.servers
      → remove_exposed_thing slugify hash x.title s ≡ (ok tt, u)
      → InSync u
        × (mem x.title u.enabled_titles ≡ false)
        × (Dict.contains x.title u.exposed_thing_set ≡ false)
  remove_exposed_thing_title s u x h k f plain e =
      elim (Bool-cases (mem x.title s.enabled_titles)) [
        | inr off ↦
            let same : record s { exposed_thing_set = pop x.title s.exposed_thing_set } ≡ u =
              ap (λ (q : Outcome (Unit {0}) × Servient). q.1)
                (sym (remove_not_enabled s x.title x k f off) ∙ e) in
            subst
              (λ q.
                InSync q
                × (mem x.title q.enabled_titles ≡ false)
                × (Dict.contains x.title q.exposed_thing_set ≡ false))
              same (h, off, popped s)
        | inl on ↦
            let (s', disabled, removed_too) = remove_steps s u x.title e on in
            let (same_set, off) = disable_leaves s s' x.title x f disabled in
            let sync =
              disable_exposed_thing-InSync slugify hash s s' x.title x h f plain disabled in
            let result =
              remove_from_set_lem s' u x.title x (rw same_set k) (rw same_set f) removed_too in
            subst
              (λ q.
                InSync q
                × (mem x.title q.enabled_titles ≡ false)
                × (Dict.contains x.title q.exposed_thing_set ≡ false))
              (sym result) (sync, off, popped s')
      ]
    where
      popped : (q : Servient) → Dict.contains x.title (pop x.title q.exposed_thing_set) ≡ false
      popped q =
          ground (arith, contains-pop x.title x.title q.exposed_thing_set, eq_iff x.title x.title)
