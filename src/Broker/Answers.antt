-- ===== src/Broker/Answers.antt =====
-- The answers of the handler of actions, and what the handlers of properties and events publish of a
-- Thing's own accord.
use wotpy.Prelude.{ℕ, String, Option, none, some, List, [], ◌∷◌, string_eq, text_eq, Text}
use wotpy.Outcome.{attribute_error, message_of, Outcome, ok, raised, Exec, lift, ◌>>=◌}
use wotpy.Json.{pos, Json, null, integer, str, obj, Fields, end, field, get_field}
use wotpy.Thing.{Interaction}
use wotpy.Exposed.{
  Platform, ExposedThing, EmittedEvent, EventInit, payload, property_change_init, action_invoke,
}
use wotpy.Broker.Topics.{
  topic_wildcard_invocation, build_property_updates_topic, build_action_result_topic,
  build_event_topic, target_of,
}
use wotpy.Broker.Defs.{
  Encodable, dumpable, undumpable, dumped, Loaded, not_json, failed, document, Wire, Binding,
  Incoming, Published, Handling, put, url_name_of_thing, url_name_of, on_thing, put_all,
  find_by_url_name, build_update_message,
}

module _ (p : Platform) (w : Wire p) where
  open p use {Value}
  open w use {Data, loads, dumps, json_of, json_of_init, value_attr, value_of, is_zero, slugify}

  abbrev pub field_or_null : String → Fields → Json
  field_or_null key fs = elim (get_field key fs) [ none ↦ null | some v ↦ v ]

  abbrev pub outcome_field : Outcome Json → Fields
  outcome_field (ok result) = field "result" result end
  outcome_field (raised e) = field "error" (str (message_of e)) end

  abbrev pub input_of : Fields → Value
  input_of fs = elim (get_field "input" fs) [ none ↦ p.null | some v ↦ value_of v ]

  abbrev pub answer_message :
      Binding → ℕ → Fields → Interaction → Text → Outcome Json → Published p w
  answer_message b now_ms fs act thing r = record {
    topic = build_action_result_topic b.servient_id thing (url_name_of p w act);
    data_ = dumps (
        obj (
          field "id" (field_or_null "id" fs)
            (field "timestamp" (integer (pos now_ms)) (outcome_field r))));
    qos = b.qos_rw;
  }

  -- The exceptions of the invocation and of `to_json_obj` go into the answer, that of `json.dumps` does
  -- not.
  abbrev pub answer_of :
      Binding
      → ℕ
      → Fields
      → Interaction
      → Text
      → Outcome Encodable × ExposedThing p
      → Outcome (List (Published p w)) × ExposedThing p
  answer_of b now_ms fs act thing (raised error, e) =
      (ok (answer_message b now_ms fs act thing (raised error) ∷ []), e)
  answer_of b now_ms fs act thing (ok (dumpable result), e) =
      (ok (answer_message b now_ms fs act thing (ok result) ∷ []), e)
  answer_of b now_ms fs act thing (ok (undumpable error), e) = (raised error, e)

  abbrev pub invoke_for : Fields → Interaction → Exec (ExposedThing p) Encodable
  invoke_for fs act = do
    result ← action_invoke p slugify act.name (input_of fs)
    lift (json_of result)

  abbrev pub on_action :
      Binding → ℕ → Fields → Option Interaction → Exec (ExposedThing p) (List (Published p w))
  on_action b now_ms fs none e = (ok [], e)
  on_action b now_ms fs (some act) e =
      answer_of b now_ms fs act (url_name_of_thing p w e) (invoke_for fs act e)

  -- A message that is no object fails at its first `get`: after the look-ups.
  abbrev pub on_action_document :
      Binding → ℕ → Json → Option Interaction → Exec (ExposedThing p) (List (Published p w))
  on_action_document b now_ms doc none e = (ok [], e)
  on_action_document b now_ms (obj fs) (some act) e = on_action b now_ms fs (some act) e
  on_action_document b now_ms _ (some act) e = (raised (attribute_error "get"), e)

  abbrev pub on_action_target : Binding → ℕ → Json → Option (Text × Text) → Handling p w (Unit {0})
  on_action_target b now_ms doc none h = (ok tt, h)
  on_action_target b now_ms doc (some (thing, name)) h =
      put_all p w
        (on_thing p w thing
          (λ e. on_action_document b now_ms doc (find_by_url_name p w name e.thing.actions) e)
          h.exposed_things)
        h

  abbrev pub on_action_loaded : Binding → ℕ → Incoming p w → Loaded → Handling p w (Unit {0})
  on_action_loaded b now_ms msg not_json h = (ok tt, h)
  on_action_loaded b now_ms msg (failed e) h = (raised e, h)
  on_action_loaded b now_ms msg (document doc) h =
      on_action_target b now_ms doc
        (target_of (topic_wildcard_invocation b.wildcard b.servient_id) msg.topic) h

  -- `ActionMQTTHandler.handle_message`
  unfoldable pub handle_action : Binding → ℕ → Incoming p w → Handling p w (Unit {0})
  handle_action b now_ms msg h = on_action_loaded b now_ms msg (loads msg.data_) h

  abbrev pub enqueue : Outcome (Published p w) → Handling p w (Unit {0})
  enqueue (raised e) h = (raised e, h)
  enqueue (ok message) h = (ok tt, put p w message h)

  -- `item.data.value`
  abbrev pub changed_value : EventInit p.Value → Outcome Value
  changed_value (property_change_init name value) = ok value
  changed_value (payload v) = value_attr v
  changed_value _ = raised (attribute_error "value")

  abbrev value_json : Outcome Value → Outcome Json
  value_json (raised e) = raised e
  value_json (ok v) = dumped (json_of v)

  abbrev update_of : Binding → ℕ → Text → Outcome Json → Outcome (Published p w)
  update_of b now_ms topic (raised e) = raised e
  update_of b now_ms topic (ok json) = ok (build_update_message p w b.qos_observe now_ms topic json)

  -- The `on_next` that `_build_on_next` of the property handler returns for a Thing and a property; the
  -- queue is never full.
  unfoldable pub on_next_property :
      Binding → ℕ → Text → Text → EmittedEvent p.Value → Handling p w (Unit {0})
  unfolding build_update_message
  on_next_property b now_ms thing prop item = enqueue (
      update_of b now_ms (build_property_updates_topic b.servient_id thing prop)
        (value_json (changed_value item.init)))

  abbrev event_message : Binding → ℕ → Text → String → Outcome Json → Outcome (Published p w)
  event_message b now_ms topic name (raised e) = raised e
  event_message b now_ms topic name (ok json) = ok (record {
    topic = topic;
    data_ = dumps (
        obj (
          field "name" (str name)
            (field "data" json (field "timestamp" (integer (pos now_ms)) end))));
    qos = b.qos_observe;
  })

  -- that of the event handler
  unfoldable pub on_next_event :
      Binding → ℕ → Text → Text → EmittedEvent p.Value → Handling p w (Unit {0})
  on_next_event b now_ms thing evt item = enqueue (
      event_message b now_ms (build_event_topic b.servient_id thing evt) item.name
        (dumped (json_of_init item.init)))
