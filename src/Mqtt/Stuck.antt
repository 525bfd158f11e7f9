-- ===== src/Mqtt/Stuck.antt =====
-- A broker that a client cannot use again.
use wotpy.Prelude.{String, ◌≡◌, ◌∙◌, refl, true, false, some, string_eq, eq_iff}
use wotpy.Outcome.{ok, raised, assertion_error}
use wotpy.Dict
use wotpy.Dict.{Dict}
use wotpy.Dict.Laws.{contains-set, contains-pop, contains-get}
use wotpy.Refs.{decrease, has_any}
use wotpy.Mqtt.Client.{
  MqttClient, deliver_ends, stop_deliver_loop, start_deliver_loop, init_client, disconnect_client,
}

-- There is a stop event, but no connection.
record IsStuck (b : String) (s : MqttClient) : Type 0 where
  pub event : Dict.contains b s.deliver_stop_events ≡ true
  pub client : Dict.contains b s.clients ≡ false

disconnect_client-IsStuck :
    (broker_url first : String) (s : MqttClient)
    → Dict.get broker_url s.deliver_stop_events ≡ some false
    → has_any broker_url (decrease broker_url first s.ref_counter) ≡ false
    → IsStuck broker_url (disconnect_client broker_url first false s)
unfolding disconnect_client stop_deliver_loop
disconnect_client-IsStuck broker_url first s running unused =
    let there = contains-get broker_url false s.deliver_stop_events running in
    let here = (eq_iff broker_url broker_url).1 refl in
    rw (unused, there, running)
      (record {
        event = contains-set broker_url broker_url true s.deliver_stop_events ∙ rw here refl;
        client = contains-pop broker_url broker_url s.clients ∙ rw here refl;
      })

deliver_ends-IsStuck :
    (broker_url : String) (s : MqttClient)
    → IsStuck broker_url s
    → IsStuck broker_url (deliver_ends broker_url s)
unfolding deliver_ends
deliver_ends-IsStuck broker_url s h =
    let here = (eq_iff broker_url broker_url).1 refl in
    rw h.event (record {
      event = contains-set broker_url broker_url false s.deliver_stop_events ∙ rw here refl;
      client = h.client;
    })

init_client_refused :
    (broker_url second : String) (s : MqttClient)
    → IsStuck broker_url s
    → (init_client broker_url second (ok tt) s).0
      ≡ raised (assertion_error "Stop event is already defined")
unfolding init_client start_deliver_loop
init_client_refused broker_url second s h = rw (h.client, h.event) refl

-- When the last reference to a broker goes while its delivery loop runs, and the loop does not end in
-- time, then the next operation cannot connect to the broker: `_init_client` fails with an assertion,
-- though the loop has ended by then.
pub init_client-disconnect_client :
    (broker_url first second : String) (s : MqttClient)
    → Dict.get broker_url s.deliver_stop_events ≡ some false
    → has_any broker_url (decrease broker_url first s.ref_counter) ≡ false
    → (init_client broker_url second
        (ok tt)
        (deliver_ends broker_url (disconnect_client broker_url first false s))).0
      ≡ raised (assertion_error "Stop event is already defined")
init_client-disconnect_client broker_url first second s running unused =
    init_client_refused broker_url second
      (deliver_ends broker_url (disconnect_client broker_url first false s))
      (deliver_ends-IsStuck broker_url (disconnect_client broker_url first false s)
        (disconnect_client-IsStuck broker_url first s running unused))
