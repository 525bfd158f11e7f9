-- ===== src/Tests/Runners.antt =====
-- The loops of a runner, a subscriber of two Things, and an MQTT client.
use wotpy.Prelude.{
  ℕ, ◌≡◌, refl, true, false, none, some, List, [], ◌∷◌, ◌++◌, arith, nat_eq, string_eq,
}
use wotpy.Outcome.{ok, raised, user_error}
use wotpy.Dict
use wotpy.Dict.{Dict}
use wotpy.Sets.{mem}
use wotpy.Thing.{event}
use wotpy.Refs.{decrease, has_any}
use wotpy.Broker.Runner.{
  message, nothing, Runner, Event, delivers, handles, publishes, enqueues, run,
}
use wotpy.Broker.Subs.{Subscriber, Subscription, refresh}
use wotpy.Broker.Delivery.{in_hand, incoming, outgoing, all_taken, all_given, run_keeps}
use wotpy.Broker.Progress.{run_publishes_all}
use wotpy.Broker.Subscribed.{is_subscribed, is_expected, is_subscribed-refresh}
use wotpy.Mqtt.Client.{MqttClient, new_client, or_empty}
use wotpy.Mqtt.Ops.{Op, op_init, op_subscribe, op_message, op_disconnect, run_ops, IsConsistent}
use wotpy.Mqtt.Consistency.{run_ops-IsConsistent}
use wotpy.Tests.Data.{whole_lamp}

-- A buffer of one message, with a message in hand and two that wait.
abbrev busy : Runner ℕ ℕ
busy = record {
  maxsize = 1;
  delivering = none;
  messages_buffer = 1 ∷ [];
  handled = [];
  queue = 8 ∷ [];
  publishing = some 7;
  published = [];
  event_stop_request = false;
}

abbrev schedule : List (Event ℕ ℕ)
schedule =
    delivers (message 2)
    ∷ publishes false
    ∷ handles
    ∷ delivers nothing
    ∷ enqueues 9
    ∷ publishes true
    ∷ []

run_keeps_example :
    (incoming (run schedule busy) ≡ incoming busy ++ all_taken schedule busy)
    × (outgoing (run schedule busy) ≡ outgoing busy ++ all_given schedule)
run_keeps_example = run_keeps schedule busy refl

-- Stopped with a message in each hand
abbrev stopped : Runner ℕ ℕ
stopped = record busy { delivering = some 4; publishing = some 5; event_stop_request = true }

abbrev sending : List (Event ℕ ℕ)
sending = publishes true ∷ publishes false ∷ delivers nothing ∷ publishes true ∷ []

run_publishes_all_example :
    ((run sending busy).published ≡ busy.published ++ (in_hand busy.publishing ++ busy.queue))
    × ((run sending busy).publishing ≡ none)
    × ((run sending busy).queue ≡ [])
run_publishes_all_example = run_publishes_all sending busy refl refl (omega arith)

-- Subscribed to a Thing that is gone.
abbrev watcher : Subscriber
watcher = record {
  interaction_type = event;
  subs = (5, (6, record { serial = 1; on_error_target = 6 }) ∷ []) ∷ [];
  next_serial = 2;
  disposed = [];
}

is_subscribed-refresh_example :
    is_subscribed 1 13 (refresh (whole_lamp ∷ []) watcher)
    ≡ is_expected event 1 13 (whole_lamp ∷ [])
is_subscribed-refresh_example = is_subscribed-refresh (whole_lamp ∷ []) watcher 1 13 (refl, tt)

abbrev two_subs : Dict ℕ Subscription
two_subs =
    (3, record { serial = 1; on_error_target = 4 })
    ∷ (4, record { serial = 2; on_error_target = 4 })
    ∷ []

abbrev pair_watcher : Subscriber
pair_watcher = record watcher { subs = (5, two_subs) ∷ [] }

watched : Dict.get 5 pair_watcher.subs ≡ some two_subs
unfolding Dict.get
watched = refl

first_sub : Dict.get 3 two_subs ≡ some (record { serial = 1; on_error_target = 4 })
unfolding Dict.get
first_sub = refl

second_sub : Dict.get 4 two_subs ≡ some (record { serial = 2; on_error_target = 4 })
unfolding Dict.get
second_sub = refl

abbrev session : List Op
session =
    op_init "mqtt://a" "r1" (ok tt)
    ∷ op_subscribe "mqtt://a" "t" 1 (ok tt)
    ∷ op_message 15000 "mqtt://a" "t" (raised (user_error "no JSON")) "m1" 5 6
    ∷ op_init "mqtt://b" "r2" (raised (user_error "refused"))
    ∷ op_disconnect "mqtt://a" "r1" true
    ∷ []

run_ops-IsConsistent_example : IsConsistent (run_ops session new_client) "mqtt://b"
run_ops-IsConsistent_example = run_ops-IsConsistent session "mqtt://b"

-- A client that waits on one topic.
abbrev pub waiting : MqttClient
waiting = record new_client {
  deliver_stop_events = ("mqtt://a", false) ∷ [];
  msg_conditions = ("mqtt://a", "t" ∷ []) ∷ [];
  clients = ("mqtt://a", tt) ∷ [];
  ref_counter = ("mqtt://a", "r1" ∷ []) ∷ [];
}

pub waits_on_broker : Dict.contains "mqtt://a" waiting.msg_conditions ≡ true
unfolding Dict.contains
waits_on_broker = refl

pub waits_on_topic : mem "t" (or_empty (Dict.get "mqtt://a" waiting.msg_conditions)) ≡ true
unfolding Dict.get
waits_on_topic = refl

loop_runs : Dict.get "mqtt://a" waiting.deliver_stop_events ≡ some false
unfolding Dict.get
loop_runs = refl

no_more_refs : has_any "mqtt://a" (decrease "mqtt://a" "r1" waiting.ref_counter) ≡ false
unfolding has_any decrease Dict.get Dict.set
no_more_refs = refl
