-- ===== src/Broker/Invocations.antt =====
-- A request on the topic of an action invokes that action, and is answered whatever becomes of it.
use wotpy.Prelude.{
  ℕ, ◌≡◌, refl, Option, none, some, List, [], ◌∷◌, ◌++◌, text_eq, Text, codes, split-join,
}
use mathlib.Core.List.{append-nil}
use wotpy.Outcome.{Outcome, ok, raised}
use wotpy.Json.{Json, obj, pos, integer, Fields, field}
use wotpy.Thing.{Interaction}
use wotpy.Exposed.{Platform, ExposedThing}
use wotpy.Broker.Topics.{
  target_of, topic_wildcard_invocation, action_invocation_topic, build_action_result_topic,
  to_result_topic,
}
use wotpy.Broker.Defs.{
  Wire, Binding, Encodable, dumpable, undumpable, document, Incoming, Published, Handler, put_all,
  url_name_of_thing, url_name_of, find_by_url_name,
}
use wotpy.Broker.Answers.{
  handle_action, answer_of, invoke_for, on_action_document, outcome_field, field_or_null,
}
use wotpy.Broker.Requests.{NoSlash, AreOthers, levels-slash, on_thing_found}

target_of-action_invocation_topic :
    (wildcard sid thing act : Text)
    → NoSlash wildcard
    → NoSlash sid
    → NoSlash thing
    → NoSlash act
    → target_of (topic_wildcard_invocation wildcard sid) (action_invocation_topic sid thing act)
      ≡ some (thing, act)
unfolding target_of topic_wildcard_invocation action_invocation_topic
target_of-action_invocation_topic wildcard sid thing act hw hs ht ha =
    rw
      (
        levels-slash sid (codes "action") (codes "invocation") thing act hs refl refl ht ha,
        split-join b'/' sid (codes "action" ∷ codes "invocation" ∷ wildcard ∷ [])
            (hs, (refl, (refl, (hw, tt)))),
      )
      refl

-- The class method finds the topic of results that the instance builds.
pub to_result_topic-action_invocation_topic :
    (sid thing act : Text)
    → NoSlash sid
    → NoSlash thing
    → NoSlash act
    → to_result_topic (action_invocation_topic sid thing act)
      ≡ ok (build_action_result_topic sid thing act)
unfolding to_result_topic action_invocation_topic
to_result_topic-action_invocation_topic sid thing act hs ht ha =
    rw (levels-slash sid (codes "action") (codes "invocation") thing act hs refl refl ht ha) refl

module _ (p : Platform) (w : Wire p) where
  open w use {Data, loads, dumps, slugify}

  abbrev pub invocation : Binding → ExposedThing p → Interaction → Data → Incoming p w
  invocation b e act data_ = record {
    topic = action_invocation_topic b.servient_id (url_name_of_thing p w e) (url_name_of p w act);
    data_ = data_;
  }

  -- `e` is the first Thing with its URL name, `act` the first action of `e` with its own, and no part of
  -- a topic has a slash.
  pub record IsInvoked (b : Binding) (h : Handler p w) (xs ys : List (ExposedThing p))
      (e : ExposedThing p) (act : Interaction) : Type 0 where
    pub wildcard_part : NoSlash b.wildcard
    pub servient_part : NoSlash b.servient_id
    pub thing_part : NoSlash (url_name_of_thing p w e)
    pub action_part : NoSlash (url_name_of p w act)
    pub things : h.exposed_things ≡ xs ++ e ∷ ys
    pub others : AreOthers p w e xs
    pub found : find_by_url_name p w (url_name_of p w act) e.thing.actions ≡ some act

  -- What the answer says of an invocation: nothing where `json.dumps` refuses its result
  abbrev pub said : Outcome Encodable → Option (Outcome Json)
  said (raised error) = some (raised error)
  said (ok (dumpable result)) = some (ok result)
  said (ok (undumpable error)) = none

  abbrev pub ending : Outcome Encodable → Outcome (Unit {0})
  ending (raised error) = ok tt
  ending (ok (dumpable result)) = ok tt
  ending (ok (undumpable error)) = raised error

  abbrev pub result_messages :
      Binding
      → ℕ
      → ExposedThing p
      → Interaction
      → Json
      → Option (Outcome Json)
      → List (Published p w)
  result_messages b now_ms e act id none = []
  result_messages b now_ms e act id (some r) =
      (record {
        topic =
            build_action_result_topic b.servient_id (url_name_of_thing p w e) (url_name_of p w act);
        data_ =
            dumps (
              obj (field "id" id (field "timestamp" (integer (pos now_ms)) (outcome_field p w r))));
        qos = b.qos_rw;
      })
      ∷ []

  put_all-answer_of :
      (b : Binding) (now_ms : ℕ) (h : Handler p w) (xs ys : List (ExposedThing p))
      (e e' : ExposedThing p) (act : Interaction) (fs : Fields) (r : Outcome Encodable)
      → (let (q, after) = answer_of p w b now_ms fs act (url_name_of_thing p w e) (r, e') in
          put_all p w (q, xs ++ after ∷ ys) h)
        ≡ (
          ending r,
          record h {
            exposed_things = xs ++ e' ∷ ys;
            queue = h.queue ++ result_messages b now_ms e act (field_or_null p w "id" fs) (said r);
          },
        )
  put_all-answer_of b now_ms h xs ys e e' act fs (raised error) = refl
  put_all-answer_of b now_ms h xs ys e e' act fs (ok (dumpable result)) = refl
  put_all-answer_of b now_ms h xs ys e e' act fs (ok (undumpable error)) =
      rw (append-nil h.queue) refl

  -- An invocation on the topic of an action, where the Thing and the action are the first with
  -- their URL names and have no slash in them, is answered by exactly one message on the topic of
  -- results of that action, with the ID of the request and either the result or the error, also
  -- where the action raises or its result cannot be converted. Only where `json.dumps` refuses the
  -- converted result there is no message, and the handler raises that exception. The other Things stay
  -- as they are.
  pub handle_action_lem :
      (b : Binding) (now_ms : ℕ) (h : Handler p w) (xs ys : List (ExposedThing p))
      (e : ExposedThing p) (act : Interaction) (data_ : Data) (fs : Fields)
      → IsInvoked b h xs ys e act
      → loads data_ ≡ document (obj fs)
      → let r = (invoke_for p w fs act e).0 in
        handle_action p w b now_ms (invocation b e act data_) h ≡ (
          ending r,
          record h {
            exposed_things = xs ++ (invoke_for p w fs act e).1 ∷ ys;
            queue = h.queue ++ result_messages b now_ms e act (field_or_null p w "id" fs) (said r);
          },
        )
  unfolding handle_action
  handle_action_lem b now_ms h xs ys e act data_ fs a loaded =
      let thing = url_name_of_thing p w e in
      let name = url_name_of p w act in
      let topic =
        target_of-action_invocation_topic b.wildcard b.servient_id thing name a.wildcard_part
          a.servient_part a.thing_part a.action_part in
      rw
        (
          loaded,
          topic,
          a.things,
          on_thing_found p w xs ys e
              (λ x.
                on_action_document p w b now_ms (obj fs) (find_by_url_name p w name x.thing.actions)
                  x)
              a.others,
          a.found,
        )
        (put_all-answer_of b now_ms (record h { exposed_things = xs ++ e ∷ ys }) xs ys e
          (invoke_for p w fs act e).1 act fs (invoke_for p w fs act e).0)
