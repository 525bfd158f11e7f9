-- ===== src/Broker/Failing.antt =====
-- What an error of a subscription disposes of.
use wotpy.Prelude.{
  ℕ, ◌≡◌, ◌∙◌, refl, ap, true, false, some, [], ◌∷◌, ◌++◌, ◌==◌, nat_eq, nat_beq_iff,
}
use wotpy.Outcome.{ok}
use wotpy.Dict.{get, contains, set, pop}
use wotpy.Dict.Laws.{get-set, contains-pop, contains-get}
use wotpy.Broker.Subs.{Subscriber, Subscription, Subs, subs_of, on_error}
use wotpy.Broker.Subscribed.{is_subscribed}

on_error_target_lem :
    (s : Subscriber) (thing intrc : ℕ) (d : Subs) (failed other : Subscription)
    → get thing s.subs ≡ some d
    → get intrc d ≡ some failed
    → get failed.on_error_target d ≡ some other
    → on_error thing intrc s ≡ (
      ok tt,
      record s {
        subs = set thing (pop failed.on_error_target d) s.subs;
        disposed = s.disposed ++ other.serial ∷ [];
      },
    )
unfolding on_error
on_error_target_lem s thing intrc d failed other there has target = rw (there, has, target) refl

-- The subscription that fails stays, where its error callback speaks of another interaction, whose
-- subscription is disposed of instead: the callbacks of one refresh all speak of the last interaction
-- that it subscribed to.
pub on_error_other :
    (s : Subscriber) (thing intrc : ℕ) (d : Subs) (failed other : Subscription)
    → get thing s.subs ≡ some d
    → get intrc d ≡ some failed
    → get failed.on_error_target d ≡ some other
    → (failed.on_error_target == intrc) ≡ false
    → let u = (on_error thing intrc s).1 in
      (is_subscribed thing intrc u ≡ true)
      × (is_subscribed thing failed.on_error_target u ≡ false)
      × (u.disposed ≡ s.disposed ++ other.serial ∷ [])
on_error_other s thing intrc d failed other there has target differs =
    let i = failed.on_error_target in
    let self : (thing == thing) ≡ true = (nat_beq_iff thing thing).1 refl in
    let same : (i == i) ≡ true = (nat_beq_iff i i).1 refl in
    let after : get thing (set thing (pop i d) s.subs) ≡ some (pop i d) =
      get-set thing thing (pop i d) s.subs ∙ rw self refl in
    rw (on_error_target_lem s thing intrc d failed other there has target) (
      ap (λ o. contains intrc (subs_of o)) after
          ∙ contains-pop i intrc d
          ∙ rw (differs, contains-get intrc failed d has) refl,
      ap (λ o. contains i (subs_of o)) after ∙ contains-pop i i d ∙ rw same refl,
      refl,
    )
