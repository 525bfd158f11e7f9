-- ===== src/Broker/Requests.antt =====
-- A request on the topic of a property reaches that property and no other.
use wotpy.Prelude.{
  ℕ, ◌≡◌, ◌∙◌, refl, Bool-cases, inl, inr, true, false, ◌||◌, some, List, [], ◌∷◌, ◌++◌, ◌==◌,
  string_eq, text_eq, text_beq_iff, Text, codes, split-join, avoids, All, if◌then◌else◌,
}
use wotpy.Outcome.{Outcome, ok, Exec}
use wotpy.Json.{Json, str, obj, Fields, end, field, get_field}
use wotpy.Thing.{Interaction}
use wotpy.Exposed.{Platform, ExposedThing, property_read, handle_write_property}
use wotpy.Broker.Topics.{
  slash, levels, target_of, topic_wildcard_requests, property_requests_topic,
  build_property_updates_topic, to_write_ack_topic, ack_topic,
}
use wotpy.Broker.Defs.{
  Wire, Binding, dumpable, document, Incoming, Published, Handler, put_all, on_thing, on_property,
  url_name_of_thing, url_name_of, find_by_url_name, handle_property, build_update_message,
  publish_write_ack, is_true, is_text,
}

abbrev pub NoSlash : Text → Type 0
NoSlash s = avoids b'/' s ≡ true

-- A topic of five levels.
pub levels-slash :
    (a b c d e : Text)
    → NoSlash a
    → NoSlash b
    → NoSlash c
    → NoSlash d
    → NoSlash e
    → levels (slash (a ∷ b ∷ c ∷ d ∷ e ∷ [])) ≡ a ∷ b ∷ c ∷ d ∷ e ∷ []
levels-slash a b c d e ha hb hc hd he =
    split-join b'/' a (b ∷ c ∷ d ∷ e ∷ []) (ha, (hb, (hc, (hd, (he, tt)))))

-- The requests topic of a Thing and a property is read back as the two.
pub target_of-property_requests_topic :
    (wildcard sid thing prop : Text)
    → NoSlash wildcard
    → NoSlash sid
    → NoSlash thing
    → NoSlash prop
    → target_of (topic_wildcard_requests wildcard sid) (property_requests_topic sid thing prop)
      ≡ some (thing, prop)
unfolding target_of topic_wildcard_requests property_requests_topic
target_of-property_requests_topic wildcard sid thing prop hw hs ht hp =
    rw
      (
        levels-slash sid (codes "property") (codes "requests") thing prop hs refl refl ht hp,
        split-join b'/' sid (codes "property" ∷ codes "requests" ∷ wildcard ∷ [])
            (hs, (refl, (refl, (hw, tt)))),
      )
      refl

pub to_write_ack_topic-property_requests_topic :
    (sid thing prop : Text)
    → NoSlash sid
    → NoSlash thing
    → NoSlash prop
    → to_write_ack_topic (property_requests_topic sid thing prop) ≡ ok (ack_topic sid thing prop)
unfolding to_write_ack_topic property_requests_topic
to_write_ack_topic-property_requests_topic sid thing prop hs ht hp =
    rw (levels-slash sid (codes "property") (codes "requests") thing prop hs refl refl ht hp) refl

module _ (p : Platform) (w : Wire p) where
  open p use {Value}
  open w use {Data, loads, dumps, json_of, value_of, is_zero, slugify}

  -- The Things before `e` have other URL names.
  abbrev pub AreOthers : ExposedThing p → List (ExposedThing p) → Type 0
  AreOthers e = All (λ x. (url_name_of_thing p w x == url_name_of_thing p w e) ≡ false)

  pub on_thing_found :
      (xs ys : List (ExposedThing p)) (e : ExposedThing p)
      (body : Exec (ExposedThing p) (List (Published p w)))
      → AreOthers e xs
      → on_thing p w (url_name_of_thing p w e) body (xs ++ e ∷ ys)
        ≡ ((body e).0, xs ++ (body e).1 ∷ ys)
  on_thing_found [] ys e body h =
      rw ((text_beq_iff (url_name_of_thing p w e) (url_name_of_thing p w e)).1 refl) refl
  on_thing_found (x ∷ xs) ys e body h = rw (h.0, on_thing_found xs ys e body h.1) refl

  -- The message that asks for something of a property of a Thing.
  abbrev pub request : Binding → ExposedThing p → Interaction → Data → Incoming p w
  request b e i data_ = record {
    topic = property_requests_topic b.servient_id (url_name_of_thing p w e) (url_name_of p w i);
    data_ = data_;
  }

  -- `e` is the first Thing with its URL name, `i` the first property of `e` with its own, and no part of
  -- a topic has a slash.
  pub record IsAddressed (b : Binding) (h : Handler p w) (xs ys : List (ExposedThing p))
      (e : ExposedThing p) (i : Interaction) : Type 0 where
    pub wildcard_part : NoSlash b.wildcard
    pub servient_part : NoSlash b.servient_id
    pub thing_part : NoSlash (url_name_of_thing p w e)
    pub property_part : NoSlash (url_name_of p w i)
    pub things : h.exposed_things ≡ xs ++ e ∷ ys
    pub others : AreOthers e xs
    pub found : find_by_url_name p w (url_name_of p w i) e.thing.properties ≡ some i

  -- What the handler makes of the answer of the Thing at its place.
  abbrev settled :
      Outcome (List (Published p w)) × ExposedThing p
      → List (ExposedThing p)
      → List (ExposedThing p)
      → Handler p w
      → Outcome (Unit {0}) × Handler p w
  settled (r, e) xs ys h = put_all p w (r, xs ++ e ∷ ys) h

  handle_property-request :
      (b : Binding) (now_ms : ℕ) (h : Handler p w) (xs ys : List (ExposedThing p))
      (e : ExposedThing p) (i : Interaction) (data_ : Data) (fs : Fields)
      → IsAddressed b h xs ys e i
      → loads data_ ≡ document (obj fs)
      → (is_text "read" (get_field "action" fs) || is_text "write" (get_field "action" fs)) ≡ true
      → handle_property p w b now_ms (request b e i data_) h
        ≡ settled (on_property p w b now_ms (request b e i data_) fs (some i) e) xs ys h
  unfolding handle_property
  handle_property-request b now_ms h xs ys e i data_ fs a loaded asks =
      let thing = url_name_of_thing p w e in
      let name = url_name_of p w i in
      let msg = request b e i data_ in
      let topic =
        target_of-property_requests_topic b.wildcard b.servient_id thing name a.wildcard_part
          a.servient_part a.thing_part a.property_part in
      rw
        (
          loaded,
          asks,
          topic,
          a.things,
          on_thing_found xs ys e
              (λ x.
                on_property p w b now_ms msg fs (find_by_url_name p w name x.thing.properties) x)
              a.others,
          a.found,
        )
        refl

  -- A request to read a property, on the topic of that property, where the Thing and the property
  -- are the first with their URL names and have no slash in them, the read succeeds and the value
  -- has a JSON form, reads the property on its Thing, leaves the other Things as they are, and
  -- queues one message: the value, on the topic of the property's updates.
  pub handle_property-read :
      (b : Binding) (now_ms : ℕ) (h : Handler p w) (xs ys : List (ExposedThing p))
      (e e' : ExposedThing p) (i : Interaction) (data_ : Data) (fs : Fields) (value : Value)
      (json : Json)
      → IsAddressed b h xs ys e i
      → loads data_ ≡ document (obj fs)
      → get_field "action" fs ≡ some (str "read")
      → property_read p slugify i.name e ≡ (ok value, e')
      → json_of value ≡ ok (dumpable json)
      → handle_property p w b now_ms (request b e i data_) h ≡ (
        ok tt,
        record h {
          exposed_things = xs ++ e' ∷ ys;
          queue =
              h.queue
              ++ build_update_message p w b.qos_observe now_ms
                  (build_property_updates_topic b.servient_id
                    (url_name_of_thing p w e)
                    (url_name_of p w i))
                  json
                ∷ [];
        },
      )
  handle_property-read b now_ms h xs ys e e' i data_ fs value json a loaded asks read encoded =
      let asked : (is_text "read" (get_field "action" fs)
            || is_text "write" (get_field "action" fs))
          ≡ true =
        rw asks refl in
      handle_property-request b now_ms h xs ys e i data_ fs a loaded asked
      ∙ rw (asks, read, encoded) refl

  -- A request to write a property, on the topic of that property, where the Thing and the property
  -- are the first with their URL names and have no slash in them, and the write succeeds, writes
  -- the property on its Thing as an external write; if the ack code is one that Python takes for
  -- true, one message with that code is queued, on the topic of acknowledgements of the property,
  -- and otherwise none.
  pub handle_property-write :
      (b : Binding) (now_ms : ℕ) (h : Handler p w) (xs ys : List (ExposedThing p))
      (e e' : ExposedThing p) (i : Interaction) (data_ : Data) (fs : Fields) (v code : Json)
      → IsAddressed b h xs ys e i
      → loads data_ ≡ document (obj fs)
      → get_field "action" fs ≡ some (str "write")
      → get_field "value" fs ≡ some v
      → get_field "ack" fs ≡ some code
      → handle_write_property p slugify i.name (value_of v) e ≡ (ok tt, e')
      → handle_property p w b now_ms (request b e i data_) h ≡ (
        ok tt,
        record h {
          exposed_things = xs ++ e' ∷ ys;
          queue =
              h.queue
              ++ (if is_true is_zero code
                  then (record {
                    topic = ack_topic b.servient_id (url_name_of_thing p w e) (url_name_of p w i);
                    data_ = dumps (obj (field "ack" code end));
                    qos = b.qos_rw;
                  })
                    ∷ []
                  else []);
        },
      )
  unfolding publish_write_ack
  handle_property-write b now_ms h xs ys e e' i data_ fs v code a loaded asks given acks written =
      let asked : (is_text "read" (get_field "action" fs)
            || is_text "write" (get_field "action" fs))
          ≡ true =
        rw asks refl in
      let topic =
        to_write_ack_topic-property_requests_topic b.servient_id (url_name_of_thing p w e)
          (url_name_of p w i) a.servient_part a.thing_part a.property_part in
      handle_property-request b now_ms h xs ys e i data_ fs a loaded asked
      ∙ elim (Bool-cases (is_true is_zero code)) [
        | inl true_code ↦ rw (asks, given, written, loaded, asks, acks, topic, true_code) refl
        | inr false_code ↦ rw (asks, given, written, loaded, asks, acks, topic, false_code) refl
      ]
