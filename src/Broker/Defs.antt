-- ===== src/Broker/Defs.antt =====
-- What the handlers do with a message. The state is what the handlers share: the ExposedThings of the
-- server, and the queue of messages that wait to be published. A handler runs to its end in one step.
use wotpy.Prelude.{
  ℕ, String, Bool, true, false, not, ◌||◌, Option, none, some, List, [], ◌∷◌, ◌++◌, ◌==◌, string_eq,
  text_eq, Text, codes, find?, if◌then◌else◌, nat_beq,
}
use wotpy.Outcome.{Error, attribute_error, Outcome, ok, raised, Exec, pure, lift, ◌>>=◌, ◌>>◌}
use wotpy.Dict.{Dict, values}
use wotpy.Json.{
  pos, Json, null, bool, integer, real, str, arr, obj, nil, Fields, end, field, get_field,
}
use wotpy.Thing.{Interaction}
use wotpy.Exposed.{Platform, ExposedThing, EventInit, handle_write_property, property_read}
use wotpy.Broker.Topics.{
  topic_pong, topic_wildcard_requests, build_property_updates_topic, to_write_ack_topic, target_of,
}

-- What `json.loads(data.decode())` does: the two exceptions that the handlers catch are `not_json`.
pub data Loaded : Type 0 where
  not_json : Loaded
  failed : Error → Loaded
  document : Json → Loaded

-- What `to_json_obj` returns: an object that `json.dumps` takes, or one that it refuses with an exception,
-- as the list of a set may be.
pub data Encodable : Type 0 where
  dumpable : Json → Encodable
  undumpable : Error → Encodable

-- `json.dumps` of it
abbrev pub dumped : Outcome Encodable → Outcome Json
dumped (raised e) = raised e
dumped (ok (dumpable json)) = ok json
dumped (ok (undumpable e)) = raised e

-- The payloads of a binding, and the JSON forms of an application's values: `json_of` is
-- `to_json_obj`, which may raise, `json_of_init` the same of an event's data, `value_attr` the attribute `value`, and
-- `value_of` what the application gets of a document. `is_zero` is the test of the
-- number that a literal with a fraction stands for.
pub record Wire (p : Platform) : Type 1 where
  pub Data : Type 0
  pub loads : Data → Loaded
  pub dumps : Json → Data
  pub json_of : p.Value → Outcome Encodable
  pub json_of_init : EventInit p.Value → Outcome Encodable
  pub value_attr : p.Value → Outcome p.Value
  pub value_of : Json → p.Value
  pub is_zero : String → Bool
  pub slugify : String → String

-- How MQTT and Zenoh differ.
pub record Binding : Type 0 where
  pub servient_id : Text
  pub wildcard : Text
  pub qos_observe : Option ℕ
  pub qos_rw : Option ℕ

-- Python's truth of a parsed document
abbrev pub is_true : (String → Bool) → Json → Bool
is_true is_zero null = false
is_true is_zero (bool b) = b
is_true is_zero (integer (pos n)) = not (nat_beq n 0)
is_true is_zero (integer _) = true
is_true is_zero (real s is_integral) = not (is_zero s)
is_true is_zero (str s) = not (s == "")
is_true is_zero (arr nil) = false
is_true is_zero (arr _) = true
is_true is_zero (obj end) = false
is_true is_zero (obj _) = true

abbrev pub is_text : String → Option Json → Bool
is_text s (some (str t)) = t == s
is_text s _ = false

module _ (p : Platform) (w : Wire p) where
  open p use {Value}
  open w use {Data, loads, dumps, json_of, json_of_init, value_attr, value_of, is_zero, slugify}

  pub record Incoming : Type 0 where
    pub topic : Text
    pub data_ : Data

  pub record Published : Type 0 where
    pub topic : Text
    pub data_ : Data
    pub qos : Option ℕ

  pub record Handler : Type 0 where
    pub exposed_things : List (ExposedThing p)
    pub queue : List Published

  abbrev pub Handling : Type 0 → Type 0
  Handling A = Exec Handler A

  -- `await self.queue.put(message)`: the queue has no bound
  abbrev pub put : Published → Handler → Handler
  put message h = record h { queue = h.queue ++ message ∷ [] }

  abbrev pub url_name_of_thing : ExposedThing p → Text
  url_name_of_thing e = codes (slugify e.thing.title)

  abbrev pub url_name_of : Interaction → Text
  url_name_of i = codes (slugify i.name)

  unfoldable pub handle_ping : Text → Option ℕ → Incoming → Handler → Handler
  handle_ping servient_id qos msg h =
      put (record { topic = topic_pong servient_id; data_ = msg.data_; qos = qos }) h

  -- The first ExposedThing with the URL name, and a method of it.
  abbrev pub on_thing :
      Text → Exec (ExposedThing p) (List Published) → Exec (List (ExposedThing p)) (List Published)
  on_thing url_name body [] = (ok [], [])
  on_thing url_name body (e ∷ es) =
      let (r, es') = on_thing url_name body es in
      if url_name_of_thing e == url_name
      then (let (q, e') = body e in (q, e' ∷ es))
      else (r, e ∷ es')

  abbrev pub put_all :
      Outcome (List Published) × List (ExposedThing p) → Handler → Outcome (Unit {0}) × Handler
  put_all (ok messages, things) h =
      (ok tt, record h { exposed_things = things; queue = h.queue ++ messages })
  put_all (raised e, things) h = (raised e, record h { exposed_things = things })

  abbrev pub find_by_url_name : Text → Dict String Interaction → Option Interaction
  find_by_url_name url_name d = find? (λ (i : Interaction). url_name_of i == url_name) (values d)

  -- `_build_update_message`
  unfoldable pub build_update_message : Option ℕ → ℕ → Text → Json → Published
  build_update_message qos now_ms topic value = record {
    topic = topic;
    data_ = dumps (obj (field "value" value (field "timestamp" (integer (pos now_ms)) end)));
    qos = qos;
  }

  abbrev pub ack_message : Binding → Option Json → Outcome Text → Outcome (List Published)
  ack_message b none topic = ok []
  ack_message b (some code) (raised e) = raised e
  ack_message b (some code) (ok topic) =
      ok (
        (record { topic = topic; data_ = dumps (obj (field "ack" code end)); qos = b.qos_rw }) ∷ [])

  abbrev pub true_field : Option Json → Option Json
  true_field none = none
  true_field (some v) = if is_true is_zero v then some v else none

  abbrev pub ack_of : Binding → Text → Loaded → Outcome (List Published)
  ack_of b topic not_json = ok []
  ack_of b topic (failed e) = raised e
  ack_of b topic (document (obj fs)) =
      if is_text "write" (get_field "action" fs)
      then ack_message b (true_field (get_field "ack" fs)) (to_write_ack_topic topic)
      else ok []
  ack_of b topic (document _) = raised (attribute_error "get")

  -- `publish_write_ack`
  unfoldable pub publish_write_ack : Binding → Incoming → Outcome (List Published)
  publish_write_ack b msg = ack_of b msg.topic (loads msg.data_)

  abbrev pub read_request : Binding → ℕ → Interaction → Exec (ExposedThing p) (List Published)
  read_request b now_ms prop e =
      (do
        value ← property_read p slugify prop.name
        json ← lift (dumped (json_of value))
        pure (
            build_update_message b.qos_observe now_ms
              (build_property_updates_topic b.servient_id (url_name_of_thing e) (url_name_of prop))
              json
            ∷ []))
        e

  abbrev pub write_request :
      Binding → Incoming → Interaction → Option Json → Exec (ExposedThing p) (List Published)
  write_request b msg prop none = pure []
  write_request b msg prop (some value) = do
    handle_write_property p slugify prop.name (value_of value)
    lift (publish_write_ack b msg)

  abbrev pub on_property :
      Binding → ℕ → Incoming → Fields → Option Interaction → Exec (ExposedThing p) (List Published)
  on_property b now_ms msg fs none = pure []
  on_property b now_ms msg fs (some prop) =
      if is_text "read" (get_field "action" fs)
      then read_request b now_ms prop
      else write_request b msg prop (get_field "value" fs)

  abbrev pub on_target :
      Binding → ℕ → Incoming → Fields → Option (Text × Text) → Handling (Unit {0})
  on_target b now_ms msg fs none h = (ok tt, h)
  on_target b now_ms msg fs (some (thing, name)) h =
      put_all
        (on_thing thing
          (λ e. on_property b now_ms msg fs (find_by_url_name name e.thing.properties) e)
          h.exposed_things)
        h

  abbrev pub on_property_loaded : Binding → ℕ → Incoming → Loaded → Handling (Unit {0})
  on_property_loaded b now_ms msg not_json h = (ok tt, h)
  on_property_loaded b now_ms msg (failed e) h = (raised e, h)
  on_property_loaded b now_ms msg (document (obj fs)) h =
      if is_text "read" (get_field "action" fs) || is_text "write" (get_field "action" fs)
      then on_target b now_ms msg fs
          (target_of (topic_wildcard_requests b.wildcard b.servient_id) msg.topic) h
      else (ok tt, h)
  on_property_loaded b now_ms msg (document _) h = (raised (attribute_error "get"), h)

  -- `PropertyMQTTHandler.handle_message`
  unfoldable pub handle_property : Binding → ℕ → Incoming → Handling (Unit {0})
  handle_property b now_ms msg h = on_property_loaded b now_ms msg (loads msg.data_) h
