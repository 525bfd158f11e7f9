-- ===== src/Zenoh/Calls.antt =====
-- wotpy/protocols/zenoh/client.py: `invoke_action`, `write_property` and `read_property` in three parts, as
-- those of the MQTT client: up to the publication, the loop that waits for the answer, and `finally`.
use wotpy.Prelude.{
  ℕ, ◌-◌, String, Bool, not, ◌&&◌, Option, none, some, List, [], ◌∷◌, ◌==◌, nat_eq, string_eq, ltb,
  leb, if◌then◌else◌,
}
use wotpy.Outcome.{client_timeout, Outcome, ok, raised, Exec, ◌>>◌}
use wotpy.Json.{Json}
use wotpy.Mqtt.Client.{Message}
use wotpy.Mqtt.Calls.{after_wait, on_match, on_published, field_is, result_of, value_of, answered}
use wotpy.Zenoh.Client.{
  ZenohClient, zenoh_init_client, zenoh_subscribe, zenoh_publish, zenoh_disconnect_client,
  zenoh_wait_on_message, zenoh_next_match,
}

-- `_init_client`, `_subscribe` to the topic of answers, and `_publish`
unfoldable pub zenoh_request :
    {A : Type 0}
    → String
    → String
    → A
    → Outcome (Unit {0})
    → Outcome (Unit {0})
    → Outcome (Unit {0})
    → Exec ZenohClient (Option A)
unfolding zenoh_init_client zenoh_subscribe zenoh_publish
zenoh_request router_url topic payload opened declared published z =
    (do
      zenoh_init_client router_url opened
      zenoh_subscribe router_url topic declared
      λ x. (on_published (zenoh_publish router_url payload x) published, x))
      z

-- Of `read_property`: the router and the topic that are read, and those that are observed
unfoldable pub init_other : String → String → Outcome (Unit {0}) → Exec ZenohClient (Unit {0})
unfolding zenoh_init_client
init_other router_read router_obsv opened z =
    if router_obsv == router_read then (ok tt, z) else zenoh_init_client router_obsv opened z

unfoldable pub zenoh_read_request :
    {A : Type 0}
    → String
    → String
    → String
    → A
    → Outcome (Unit {0})
    → Outcome (Unit {0})
    → Outcome (Unit {0})
    → Outcome (Unit {0})
    → Exec ZenohClient (Option A)
unfolding zenoh_init_client init_other zenoh_subscribe zenoh_publish
zenoh_read_request router_read router_obsv topic_obsv payload opened opened_other declared published
      z =
    (do
      zenoh_init_client router_read opened
      init_other router_read router_obsv opened_other
      zenoh_subscribe router_obsv topic_obsv declared
      λ x. (on_published (zenoh_publish router_read payload x) published, x))
      z

-- `finally` of `read_property`: an exception of the first disconnection skips the second.
unfoldable pub zenoh_read_ends : String → String → String → String → Exec ZenohClient (Unit {0})
unfolding zenoh_disconnect_client
zenoh_read_ends router_read topic_read router_obsv topic_obsv z =
    (zenoh_disconnect_client router_read topic_read
        >> zenoh_disconnect_client router_obsv topic_obsv)
      z

-- What the loop finds when it checks: the time, and the client.
pub record ZenohCheck : Type 0 where
  pub now : ℕ
  pub client : ZenohClient

-- The loop over its checks: none if they end before it does. A timeout of 0 is none.
unfoldable pub zenoh_await_match :
    ℕ → ℕ → String → String → (Message → Outcome Bool) → List ZenohCheck → Option (Outcome Message)
unfolding zenoh_next_match zenoh_wait_on_message
zenoh_await_match timeout ini router_url topic func [] = none
zenoh_await_match timeout ini router_url topic func (c ∷ cs) =
    let rest = zenoh_await_match timeout ini router_url topic func cs in
    if not (timeout == 0) && ltb timeout (c.now - ini)
    then some (raised client_timeout)
    else on_match (zenoh_next_match router_url topic func c.client)
        (after_wait (zenoh_wait_on_message router_url topic c.client) rest)

-- the loop of `write_property`
unfoldable pub zenoh_write_result :
    ℕ → ℕ → String → String → String → List ZenohCheck → Option (Outcome (Unit {0}))
unfolding zenoh_await_match
zenoh_write_result timeout ini router_url topic ack cs =
    answered (λ msg. ok tt) (zenoh_await_match timeout ini router_url topic (field_is "ack" ack) cs)

-- the loop of `read_property`
unfoldable pub zenoh_read_result :
    ℕ → ℕ → String → String → ℕ → List ZenohCheck → Option (Outcome Json)
unfolding zenoh_await_match
zenoh_read_result timeout ini router_url topic read_time cs =
    answered (value_of)
      (zenoh_await_match timeout ini router_url topic (λ msg. ok (leb read_time msg.time)) cs)

module _ (text_of : Json → String) where
  -- the loop of `invoke_action`
  unfoldable pub zenoh_invoke_result :
      ℕ → ℕ → String → String → String → List ZenohCheck → Option (Outcome Json)
  unfolding zenoh_await_match
  zenoh_invoke_result timeout ini router_url topic id cs =
      answered (result_of text_of)
        (zenoh_await_match timeout ini router_url topic (field_is "id" id) cs)
