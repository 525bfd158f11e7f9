-- ===== src/Zenoh/Client.antt =====
-- wotpy/protocols/zenoh/client.py: the sessions of the Zenoh client, their subscriptions and messages. The
-- tables of sessions, conditions, messages and topics are those of the MQTT client, whose other two stay
-- empty: no operation counts its references. What the Zenoh library does is an argument.
use wotpy.Prelude.{
  ℕ, String, Bool, true, false, not, ◌&&◌, Option, none, some, List, [], ◌∷◌, string_eq, Text,
  codes, remove_all, lstrip, rstrip, ◌++◌, if◌then◌else◌,
}
use wotpy.Outcome.{key_error, assertion_error, Outcome, ok, raised, Exec}
use wotpy.Dict
use wotpy.Dict.{Dict}
use wotpy.Json.{Json}
use wotpy.Sets.{mem, set_add, set_remove}
use wotpy.Mqtt.Client.{
  MqttClient, Message, new_client, or_empty, new_message, subscribe, publish, next_match,
}

pub record ZenohClient : Type 0 where
  pub tables : MqttClient
  pub subscribers : Dict String (List String)

abbrev pub new_zenoh_client : ZenohClient
new_zenoh_client = record { tables = new_client; subscribers = [] }

abbrev pub open_session : String → ZenohClient → ZenohClient
open_session router_url z = record z {
  tables = record z.tables { clients = Dict.set router_url tt z.tables.clients };
}

-- `_init_client`
unfoldable pub zenoh_init_client : String → Outcome (Unit {0}) → Exec ZenohClient (Unit {0})
zenoh_init_client router_url opened z =
    if Dict.contains router_url z.tables.clients
    then (ok tt, z)
    else elim opened [ raised e ↦ (raised e, z) | ok u ↦ (ok tt, open_session router_url z) ]

-- `declare_subscriber`
abbrev pub declare : String → String → Outcome (Unit {0}) → Exec ZenohClient (Unit {0})
declare router_url topic declared z =
    let ts = or_empty (Dict.get router_url z.subscribers) in
    elim declared [
      | raised e ↦ (raised e, record z { subscribers = Dict.set router_url ts z.subscribers })
      | ok u ↦
          (ok tt, record z { subscribers = Dict.set router_url (set_add topic ts) z.subscribers })
    ]

-- `_subscribe`; a topic has no level of quality
unfoldable pub zenoh_subscribe : String → String → Outcome (Unit {0}) → Exec ZenohClient (Unit {0})
unfolding subscribe
zenoh_subscribe router_url topic declared z =
    if Dict.contains router_url z.tables.clients
    then declare router_url topic declared
        (record z { tables = (subscribe router_url topic 0 (ok tt) z.tables).1 })
    else (ok tt, z)

-- `_publish`
unfoldable pub zenoh_publish {ℓ} : {A : Type ℓ} → String → A → ZenohClient → Option A
unfolding publish
zenoh_publish router_url message z = publish router_url message z.tables

-- `_deliver`, which logs the exceptions of `_new_message`
unfoldable pub zenoh_deliver :
    ℕ → String → String → Outcome Json → String → ℕ → ℕ → Exec ZenohClient (Unit {0})
unfolding new_message
zenoh_deliver ttl router_url topic data_ id now later z =
    if Dict.contains router_url z.tables.clients
    then (
      ok tt,
      record z { tables = (new_message ttl router_url topic data_ id now later z.tables).1 },
    )
    else (raised (assertion_error ""), z)

abbrev pub drop_router : String → ZenohClient → ZenohClient
drop_router router_url z = record z {
  tables = record z.tables {
    clients = Dict.pop router_url z.tables.clients;
    messages = Dict.pop router_url z.tables.messages;
    msg_conditions = Dict.pop router_url z.tables.msg_conditions;
    topics = Dict.pop router_url z.tables.topics;
  };
  subscribers = Dict.pop router_url z.subscribers;
}

abbrev pub drop_unused : String → List String → Exec ZenohClient (Unit {0})
drop_unused router_url [] z = (ok tt, drop_router router_url z)
drop_unused router_url (t ∷ ts) z =
    (ok tt, record z { subscribers = Dict.set router_url (t ∷ ts) z.subscribers })

abbrev pub disconnect_found : String → String → Option (List String) → Exec ZenohClient (Unit {0})
disconnect_found router_url topic none z = (raised (key_error router_url), z)
disconnect_found router_url topic (some ts) z = drop_unused router_url (set_remove topic ts) z

-- `_disconnect_client`: an exception of the library is logged
unfoldable pub zenoh_disconnect_client : String → String → Exec ZenohClient (Unit {0})
zenoh_disconnect_client router_url topic z =
    disconnect_found router_url topic (Dict.get router_url z.subscribers) z

-- the assertions of `_wait_on_message`
unfoldable pub zenoh_wait_on_message : String → String → ZenohClient → Outcome (Unit {0})
zenoh_wait_on_message router_url topic z =
    if not (Dict.contains router_url z.tables.msg_conditions)
    then raised (assertion_error "Unknown router URL")
    else if not (mem topic (or_empty (Dict.get router_url z.tables.msg_conditions)))
    then raised (assertion_error "Unknown topic")
    else ok tt

-- `_next_match`
unfoldable pub zenoh_next_match :
    String → String → (Message → Outcome Bool) → ZenohClient → Outcome (Option Message)
unfolding next_match
zenoh_next_match router_url topic func z = next_match router_url topic func z.tables

-- `_parse_href`, with the parts of the URL without its `tcp/`
pub record ParsedUrl : Type 0 where
  pub scheme : Text
  pub netloc : Text
  pub path : Text

unfoldable pub zenoh_parse_href : (Text → ParsedUrl) → Text → Outcome (Text × Text)
zenoh_parse_href urlparse href =
    let u = urlparse (remove_all (codes "tcp/") href) in
    if not (is_empty u.scheme) && (not (is_empty u.netloc) && not (is_empty u.path))
    then ok (codes "tcp/" ++ u.netloc, rstrip b'/' (lstrip b'/' u.path))
    else raised (assertion_error "")
  where
    is_empty : Text → Bool
    is_empty [] = true
    is_empty (c ∷ s) = false
