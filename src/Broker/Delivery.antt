-- ===== src/Broker/Delivery.antt =====
-- What the loops of a runner do to the messages.
use wotpy.Prelude.{
  ◌≡◌, ◌∙◌, refl, sym, ap, Bool, Bool-cases, inl, inr, true, false, Option, none, some, List, [],
  ◌∷◌, ◌++◌, arith, if◌then◌else◌,
}
use mathlib.Core.List.{append_assoc, append-nil}
use wotpy.Broker.Runner.{
  Delivery, message, nothing, Runner, Event, delivers, handles, publishes, enqueues, step, run,
  has_room, put_delivered, received, deliver_messages, pop_buffer, handle_messages, publish,
  publish_round, publish_queued_messages,
}

abbrev pub in_hand : {A : Type 0} → Option A → List A
in_hand none = []
in_hand (some x) = x ∷ []

abbrev pub taken_by : {M : Type 0} → Option M → Delivery M → List M
taken_by (some x) delivery = []
taken_by none (message m) = m ∷ []
taken_by none nothing = []

module _ {M O : Type 0} where
  -- The messages on their way to the handler, oldest first, and those on their way to the broker.
  abbrev pub incoming : Runner M O → List M
  incoming r = r.handled ++ (r.messages_buffer ++ in_hand r.delivering)

  abbrev pub outgoing : Runner M O → List O
  outgoing r = r.published ++ (in_hand r.publishing ++ r.queue)

  -- What a step takes from the broker's client, and what it takes from the handler.
  abbrev pub taken : Event M O → Runner M O → List M
  taken (delivers delivery) r = taken_by r.delivering delivery
  taken _ r = []

  abbrev pub given : Event M O → List O
  given (enqueues o) = o ∷ []
  given _ = []

  abbrev pub all_taken : List (Event M O) → Runner M O → List M
  all_taken [] r = []
  all_taken (e ∷ es) r = taken e r ++ all_taken es (step e r)

  abbrev pub all_given : List (Event M O) → List O
  all_given [] = []
  all_given (e ∷ es) = given e ++ all_given es

  -- The rounds of a runner that was not asked to stop.
  pub deliver_open :
      (delivery : Delivery M) (r : Runner M O)
      → r.event_stop_request ≡ false
      → deliver_messages delivery r ≡ put_delivered (received r.delivering delivery) r
  unfolding deliver_messages
  deliver_open delivery r h =
      ap
        (λ b.
          if b
          then record r { delivering = none }
          else put_delivered (received r.delivering delivery) r)
        h

  pub handle_open :
      (r : Runner M O)
      → r.event_stop_request ≡ false
      → handle_messages r ≡ pop_buffer r.messages_buffer r
  unfolding handle_messages
  handle_open r h = ap (λ b. if b then r else pop_buffer r.messages_buffer r) h

  pub publish_open :
      (succeeds : Bool) (r : Runner M O)
      → r.event_stop_request ≡ false
      → publish_queued_messages succeeds r ≡ publish_round succeeds r.publishing r
  unfolding publish_queued_messages
  publish_open succeeds r h =
      ap (λ b. if b then record r { publishing = none } else publish_round succeeds r.publishing r)
        h

  incoming-put :
      (m : M) (r : Runner M O)
      → incoming (put_delivered (some m) r) ≡ r.handled ++ (r.messages_buffer ++ m ∷ [])
  incoming-put m r = elim (Bool-cases (has_room r)) [
    | inl room ↦ rw (room, append-nil) refl
    | inr full ↦ rw full refl
  ]

  incoming-received :
      (o : Option M) (delivery : Delivery M) (r : Runner M O)
      → r.delivering ≡ o
      → incoming (put_delivered (received o delivery) r) ≡ incoming r ++ taken_by o delivery
  incoming-received none nothing r e = sym (append-nil _)
  incoming-received none (message m) r e = rw (e, append_assoc, append_assoc) (incoming-put m r)
  incoming-received (some x) delivery r e = rw e (incoming-put x r ∙ sym (append-nil _))

  incoming-pop :
      (ms : List M) (r : Runner M O)
      → r.messages_buffer ≡ ms
      → incoming (pop_buffer ms r) ≡ incoming r
  incoming-pop [] r e = refl
  incoming-pop (m ∷ ms) r e = rw e (append_assoc r.handled (m ∷ []) (ms ++ in_hand r.delivering))

  incoming-publish :
      (succeeds : Bool) (o : O) (r : Runner M O)
      → incoming (publish succeeds (some o) r) ≡ incoming r
  incoming-publish true o r = refl
  incoming-publish false o r = refl

  incoming-publish_round :
      (succeeds : Bool) (o : Option O) (os : List O) (r : Runner M O)
      → r.queue ≡ os
      → incoming (publish_round succeeds o r) ≡ incoming r
  incoming-publish_round succeeds (some o) os r e = incoming-publish succeeds o r
  incoming-publish_round succeeds none [] r e = rw e refl
  incoming-publish_round succeeds none (o ∷ os) r e =
      rw e (incoming-publish succeeds o (record r { queue = os }))

  incoming-step :
      (e : Event M O) (r : Runner M O)
      → r.event_stop_request ≡ false
      → incoming (step e r) ≡ incoming r ++ taken e r
  incoming-step (delivers delivery) r h =
      rw (deliver_open delivery r h) (incoming-received r.delivering delivery r refl)
  incoming-step handles r h =
      rw (handle_open r h) (incoming-pop r.messages_buffer r refl ∙ sym (append-nil _))
  incoming-step (publishes succeeds) r h =
      rw (publish_open succeeds r h)
        (incoming-publish_round succeeds r.publishing r.queue r refl ∙ sym (append-nil _))
  incoming-step (enqueues o) r h = sym (append-nil _)

  outgoing-publish :
      (succeeds : Bool) (o : O) (r : Runner M O)
      → outgoing (publish succeeds (some o) r) ≡ r.published ++ o ∷ r.queue
  outgoing-publish true o r = append_assoc r.published (o ∷ []) r.queue
  outgoing-publish false o r = refl

  outgoing-publish_round :
      (succeeds : Bool) (o : Option O) (os : List O) (r : Runner M O)
      → r.publishing ≡ o
      → r.queue ≡ os
      → outgoing (publish_round succeeds o r) ≡ outgoing r
  outgoing-publish_round succeeds (some o) os r p e = rw p (outgoing-publish succeeds o r)
  outgoing-publish_round succeeds none [] r p e = rw e refl
  outgoing-publish_round succeeds none (o ∷ os) r p e =
      rw (e, p) (outgoing-publish succeeds o (record r { queue = os }))

  outgoing-put : (o : Option M) (r : Runner M O) → outgoing (put_delivered o r) ≡ outgoing r
  outgoing-put none r = refl
  outgoing-put (some m) r = elim (Bool-cases (has_room r)) [
    | inl room ↦ rw room refl
    | inr full ↦ rw full refl
  ]

  outgoing-pop : (ms : List M) (r : Runner M O) → outgoing (pop_buffer ms r) ≡ outgoing r
  outgoing-pop [] r = refl
  outgoing-pop (m ∷ ms) r = refl

  outgoing-step :
      (e : Event M O) (r : Runner M O)
      → r.event_stop_request ≡ false
      → outgoing (step e r) ≡ outgoing r ++ given e
  outgoing-step (delivers delivery) r h =
      rw (deliver_open delivery r h)
        (outgoing-put (received r.delivering delivery) r ∙ sym (append-nil _))
  outgoing-step handles r h =
      rw (handle_open r h) (outgoing-pop r.messages_buffer r ∙ sym (append-nil _))
  outgoing-step (publishes succeeds) r h =
      rw (publish_open succeeds r h)
        (outgoing-publish_round succeeds r.publishing r.queue r refl refl ∙ sym (append-nil _))
  outgoing-step (enqueues o) r h = rw (append_assoc, append_assoc) refl

  stop-put :
      (o : Option M) (r : Runner M O)
      → (put_delivered o r).event_stop_request ≡ r.event_stop_request
  stop-put none r = refl
  stop-put (some m) r = ground arith

  stop-publish_round :
      (succeeds : Bool) (o : Option O) (r : Runner M O)
      → (publish_round succeeds o r).event_stop_request ≡ r.event_stop_request
  stop-publish_round succeeds (some o) r = ground arith
  stop-publish_round succeeds none r = ground arith

  stop-pop :
      (ms : List M) (r : Runner M O) → (pop_buffer ms r).event_stop_request ≡ r.event_stop_request
  stop-pop [] r = refl
  stop-pop (m ∷ ms) r = refl

  -- No round asks the loops to stop.
  pub stop-step :
      (e : Event M O) (r : Runner M O)
      → r.event_stop_request ≡ false
      → (step e r).event_stop_request ≡ false
  stop-step (delivers delivery) r h =
      rw (deliver_open delivery r h) (stop-put (received r.delivering delivery) r ∙ h)
  stop-step handles r h = rw (handle_open r h) (stop-pop r.messages_buffer r ∙ h)
  stop-step (publishes succeeds) r h =
      rw (publish_open succeeds r h) (stop-publish_round succeeds r.publishing r ∙ h)
  stop-step (enqueues o) r h = h

  -- Over any schedule of the loops of a runner that is not asked to stop, no message is lost, doubled
  -- or overtaken: those passed to the handler, followed by the buffer and the one in hand, are those
  -- at the start followed by what the broker's client delivered; and those published, followed by the
  -- one in hand and the queue, are those at the start followed by what the handler queued.
  pub run_keeps :
      (es : List (Event M O)) (r : Runner M O)
      → r.event_stop_request ≡ false
      → (incoming (run es r) ≡ incoming r ++ all_taken es r)
        × (outgoing (run es r) ≡ outgoing r ++ all_given es)
  run_keeps [] r h = (sym (append-nil _), sym (append-nil _))
  run_keeps (e ∷ es) r h =
      let (ins, outs) = run_keeps es (step e r) (stop-step e r h) in
      (
        ins
            ∙ rw (incoming-step e r h)
                (append_assoc (incoming r) (taken e r) (all_taken es (step e r))),
        outs ∙ rw (outgoing-step e r h) (append_assoc (outgoing r) (given e) (all_given es)),
      )
