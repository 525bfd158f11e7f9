-- ===== src/Broker/Runner.antt =====
-- The loops of MQTTHandlerRunner (wotpy/protocols/mqtt/runner.py) and ZenohHandlerRunner
-- (wotpy/protocols/zenoh/runner.py). One round of a loop is one step; which loop goes on, what the
-- broker's client returns and whether a publication succeeds are the schedule's choice.
use wotpy.Prelude.{
  ℕ, Bool, true, ◌||◌, Option, none, some, List, [], ◌∷◌, ◌++◌, length, ltb, nat_beq, if◌then◌else◌,
}

-- What `deliver_message` does: a message, or a timeout or an error with a new connection.
pub data Delivery (M : Type 0) : Type 0 where
  message : M → Delivery M
  nothing : Delivery M

-- `delivering` and `publishing` are the local variables `message` of two loops; `handled` are the
-- messages that were passed to the handler, `queue` is that of the handler, and `published` what the
-- broker has got.
pub record Runner (M O : Type 0) : Type 0 where
  pub maxsize : ℕ
  pub delivering : Option M
  pub messages_buffer : List M
  pub handled : List M
  pub queue : List O
  pub publishing : Option O
  pub published : List O
  pub event_stop_request : Bool

-- What happens next.
pub data Event (M O : Type 0) : Type 0 where
  delivers : Delivery M → Event M O
  handles : Event M O
  publishes : Bool → Event M O
  enqueues : O → Event M O

abbrev pub received : {M : Type 0} → Option M → Delivery M → Option M
received (some m) delivery = some m
received none (message m) = some m
received none nothing = none

module _ {M O : Type 0} where
  -- A queue of size 0 has no bound.
  abbrev pub has_room : Runner M O → Bool
  has_room r = nat_beq r.maxsize 0 || ltb (length r.messages_buffer) r.maxsize

  -- `wait_for(self._messages_buffer.put(message))`: a full buffer is a timeout
  abbrev pub put_delivered : Option M → Runner M O → Runner M O
  put_delivered none r = r
  put_delivered (some m) r =
      if has_room r
      then record r { delivering = none; messages_buffer = r.messages_buffer ++ m ∷ [] }
      else record r { delivering = some m }

  -- One round of `_deliver_messages`. A loop that sees the request to stop ends, and its variable with
  -- it.
  unfoldable pub deliver_messages : Delivery M → Runner M O → Runner M O
  deliver_messages delivery r =
      if r.event_stop_request
      then record r { delivering = none }
      else put_delivered (received r.delivering delivery) r

  abbrev pub pop_buffer : List M → Runner M O → Runner M O
  pop_buffer [] r = r
  pop_buffer (m ∷ ms) r = record r { messages_buffer = ms; handled = r.handled ++ m ∷ [] }

  -- One round of `_handle_messages`: the handler's task starts with the message.
  unfoldable pub handle_messages : Runner M O → Runner M O
  handle_messages r = if r.event_stop_request then r else pop_buffer r.messages_buffer r

  abbrev pub publish : Bool → Option O → Runner M O → Runner M O
  publish succeeds none r = r
  publish succeeds (some o) r =
      if succeeds
      then record r { publishing = none; published = r.published ++ o ∷ [] }
      else record r { publishing = some o }

  abbrev pub publish_next : Bool → List O → Runner M O → Runner M O
  publish_next succeeds [] r = r
  publish_next succeeds (o ∷ os) r = publish succeeds (some o) (record r { queue = os })

  abbrev pub publish_round : Bool → Option O → Runner M O → Runner M O
  publish_round succeeds none r = publish_next succeeds r.queue r
  publish_round succeeds (some o) r = publish succeeds (some o) r

  -- One round of `_publish_queued_messages`: a message whose publication failed is tried again.
  unfoldable pub publish_queued_messages : Bool → Runner M O → Runner M O
  publish_queued_messages succeeds r =
      if r.event_stop_request
      then record r { publishing = none }
      else publish_round succeeds r.publishing r

  -- A handler puts a message into its queue.
  abbrev pub enqueue : O → Runner M O → Runner M O
  enqueue o r = record r { queue = r.queue ++ o ∷ [] }

  abbrev pub request_stop : Runner M O → Runner M O
  request_stop r = record r { event_stop_request = true }

  -- `_deliver_messages` of the Zenoh runner, which the session calls with each sample.
  unfoldable pub deliver_sample : M → Runner M O → Runner M O
  deliver_sample sample r =
      if has_room r then record r { messages_buffer = r.messages_buffer ++ sample ∷ [] } else r

  abbrev pub step : Event M O → Runner M O → Runner M O
  step (delivers delivery) r = deliver_messages delivery r
  step handles r = handle_messages r
  step (publishes succeeds) r = publish_queued_messages succeeds r
  step (enqueues o) r = enqueue o r

  abbrev pub run : List (Event M O) → Runner M O → Runner M O
  run [] r = r
  run (e ∷ es) r = run es (step e r)
