-- ===== src/Mqtt/Timeouts.antt =====
-- The loops of the MQTT client's operations end.
use wotpy.Prelude.{
  ℕ, ◌-◌, String, ◌≡◌, refl, Bool, Bool-cases, inl, inr, true, false, Option, none, some, List, [],
  ◌∷◌, ◌==◌, nat_eq, ltb, leb, any, arith,
}
use wotpy.Outcome.{Outcome, ok, raised}
use wotpy.Json.{Json}
use wotpy.Mqtt.Client.{Message}
use wotpy.Mqtt.Calls.{
  Check, await_match, on_match, after_wait, answered, result_of, value_of, field_is, invoke_result,
  write_result, read_result, wait_on_message,
}
use wotpy.Mqtt.Client.{next_match}

abbrev pub ends {ℓ} : {A : Type ℓ} → Option A → Bool
ends none = false
ends (some a) = true

-- Some check comes more than the timeout after the beginning.
abbrev pub is_late : ℕ → ℕ → List Check → Bool
is_late timeout ini cs = any (λ c. ltb timeout (c.now - ini)) cs

ends-on_match :
    (r : Outcome (Option Message)) (w : Outcome (Unit {0})) (rest : Option (Outcome Message))
    → ends rest ≡ true
    → ends (on_match r (after_wait w rest)) ≡ true
ends-on_match (raised e) w rest h = refl
ends-on_match (ok (some m)) w rest h = refl
ends-on_match (ok none) (raised e) rest h = refl
ends-on_match (ok none) (ok u) rest h = h

await_match-ends :
    (timeout ini : ℕ) (broker_url topic : String) (func : Message → Outcome Bool) (cs : List Check)
    → (timeout == 0) ≡ false
    → is_late timeout ini cs ≡ true
    → ends (await_match timeout ini broker_url topic func cs) ≡ true
unfolding await_match
await_match-ends timeout ini broker_url topic func [] set late = absurd (ground (arith, late))
await_match-ends timeout ini broker_url topic func (c ∷ cs) set late =
    elim (Bool-cases (ltb timeout (c.now - ini))) [
      | inl now ↦ rw (set, now) refl
      | inr early ↦
          rw (set, early)
            (ends-on_match (next_match broker_url topic func c.client)
              (wait_on_message broker_url topic c.client)
              (await_match timeout ini broker_url topic func cs)
              (await_match-ends timeout ini broker_url topic func cs set
                (ground (arith, early, late))))
    ]

ends-answered :
    {A : Type 0} (f : Message → Outcome A) (r : Option (Outcome Message))
    → ends r ≡ true
    → ends (answered f r) ≡ true
ends-answered f none h = h
ends-answered f (some (raised e)) h = refl
ends-answered f (some (ok m)) h = refl

-- Where the timeout is not 0 and some check comes more than the timeout after the beginning, the
-- loops of an invocation, of a write and of a read end, whatever the messages and whatever
-- the client is at each check.
pub results-end :
    (text_of : Json → String) (timeout ini : ℕ) (broker_url topic id ack : String) (read_time : ℕ)
    (cs : List Check)
    → (timeout == 0) ≡ false
    → is_late timeout ini cs ≡ true
    → (ends (invoke_result text_of timeout ini broker_url topic id cs) ≡ true)
      × (ends (write_result timeout ini broker_url topic ack cs) ≡ true)
      × (ends (read_result timeout ini broker_url topic read_time cs) ≡ true)
unfolding invoke_result write_result read_result
results-end text_of timeout ini broker_url topic id ack read_time cs set late = (
  ends-answered (result_of text_of) (await_match timeout ini broker_url topic (field_is "id" id) cs)
      (await_match-ends timeout ini broker_url topic (field_is "id" id) cs set late),
  ends-answered (λ msg. ok tt) (await_match timeout ini broker_url topic (field_is "ack" ack) cs)
      (await_match-ends timeout ini broker_url topic (field_is "ack" ack) cs set late),
  ends-answered (value_of)
      (await_match timeout ini broker_url topic (λ msg. ok (leb read_time msg.time)) cs)
      (await_match-ends timeout ini broker_url topic (λ msg. ok (leb read_time msg.time)) cs set
        late),
)
