-- ===== src/Broker/Progress.antt =====
-- What waits in the queue of a runner is published in the end.
use wotpy.Prelude.{
  ℕ, ◌+◌, ◌-◌, ◌≤◌, ◌≡◌, ◌∙◌, refl, sym, ap, Bool, true, false, Option, none, some, List, [], ◌∷◌,
  ◌++◌, length, arith,
}
use mathlib.Core.List.{append-nil}
use wotpy.Broker.Runner.{
  Runner, Event, delivers, handles, publishes, enqueues, step, run, put_delivered, received,
  pop_buffer, publish_round,
}
use wotpy.Broker.Delivery.{
  in_hand, outgoing, all_given, given, stop-step, deliver_open, handle_open, publish_open,
  run_keeps,
}

none_waiting :
    {O : Type 0} (o : Option O) (os : List O)
    → length (in_hand o) + length os ≡ 0
    → (o ≡ none) × (os ≡ [])
none_waiting none [] h = (refl, refl)
none_waiting none (x ∷ os) h = absurd (omega arith)
none_waiting (some x) os h = absurd (omega arith)

module _ {M O : Type 0} where
  -- How many messages wait to be published, and how many publications succeed in a schedule.
  abbrev pub waiting : Runner M O → ℕ
  waiting r = length (in_hand r.publishing) + length r.queue

  abbrev pub gain : Event M O → ℕ
  gain (publishes true) = 1
  gain _ = 0

  abbrev pub successes : List (Event M O) → ℕ
  successes [] = 0
  successes (e ∷ es) = gain e + successes es

  waiting-put : (o : Option M) (r : Runner M O) → waiting (put_delivered o r) ≡ waiting r
  waiting-put none r = refl
  waiting-put (some m) r = ground arith

  waiting-pop : (ms : List M) (r : Runner M O) → waiting (pop_buffer ms r) ≡ waiting r
  waiting-pop [] r = refl
  waiting-pop (m ∷ ms) r = refl

  waiting-publish_round :
      (succeeds : Bool) (o : Option O) (os : List O) (r : Runner M O)
      → r.publishing ≡ o
      → r.queue ≡ os
      → waiting (publish_round succeeds o r) ≡ waiting r - gain (publishes succeeds)
  waiting-publish_round true (some o) os r p q = rw p (omega arith)
  waiting-publish_round false (some o) os r p q = rw p (omega arith)
  waiting-publish_round true none [] r p q = rw (q, p) (omega arith)
  waiting-publish_round false none [] r p q = rw (q, p) (omega arith)
  waiting-publish_round true none (o ∷ os) r p q = rw (q, p) (omega arith)
  waiting-publish_round false none (o ∷ os) r p q = rw (q, p) (omega arith)

  waiting-step :
      (e : Event M O) (r : Runner M O)
      → r.event_stop_request ≡ false
      → given e ≡ []
      → waiting (step e r) ≡ waiting r - gain e
  waiting-step (delivers delivery) r h g =
      rw (deliver_open delivery r h) (omega (arith, waiting-put (received r.delivering delivery) r))
  waiting-step handles r h g = rw (handle_open r h) (omega (arith, waiting-pop r.messages_buffer r))
  waiting-step (publishes succeeds) r h g =
      rw (publish_open succeeds r h)
        (waiting-publish_round succeeds r.publishing r.queue r refl refl)
  waiting-step (enqueues o) r h g = absurd (ground arith)

  no_more_given :
      (e : Event M O) (es : List (Event M O))
      → given e ++ all_given es ≡ []
      → (given e ≡ []) × (all_given es ≡ [])
  no_more_given (enqueues o) es g = absurd (ground arith)
  no_more_given (delivers delivery) es g = (refl, g)
  no_more_given handles es g = (refl, g)
  no_more_given (publishes succeeds) es g = (refl, g)

  waiting-run :
      (es : List (Event M O)) (r : Runner M O)
      → r.event_stop_request ≡ false
      → all_given es ≡ []
      → waiting (run es r) ≡ waiting r - successes es
  waiting-run [] r h g = omega arith
  waiting-run (e ∷ es) r h g =
      let (now, later) = no_more_given e es g in
      omega (arith, waiting-run es (step e r) (stop-step e r h) later, waiting-step e r h now)

  -- Where the handler queues nothing more and at least as many publications succeed as messages wait,
  -- then whatever publications fail and whatever the other loops do, every message that waited is
  -- published in the end, in order, and none is left.
  pub run_publishes_all :
      (es : List (Event M O)) (r : Runner M O)
      → r.event_stop_request ≡ false
      → all_given es ≡ []
      → waiting r ≤ successes es
      → ((run es r).published ≡ r.published ++ (in_hand r.publishing ++ r.queue))
        × ((run es r).publishing ≡ none)
        × ((run es r).queue ≡ [])
  run_publishes_all es r h g enough =
      let u = run es r in
      let (hand, left) = none_waiting u.publishing u.queue (omega (arith, waiting-run es r h g)) in
      let kept = (run_keeps es r h).1 in
      let whole : outgoing u ≡ u.published =
        ap (λ os. u.published ++ os) (rw (hand, left) refl) ∙ append-nil u.published in
      (sym whole ∙ kept ∙ rw g (append-nil _), hand, left)
