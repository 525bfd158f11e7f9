-- ===== src/Mqtt/Matching.antt =====
-- What an operation of the MQTT client that waits for a message finds.
use wotpy.Prelude.{
  ℕ, String, ◌≡◌, ◌∙◌, refl, sym, ap, Bool, Bool-cases, inl, inr, true, false, Option, none, some,
  List, [], ◌∷◌, ◌++◌, ◌+◌, ◌<◌, ◌==◌, string_eq, ltb, keep, arith,
}
use wotpy.Outcome.{Outcome, raised, ok}
use wotpy.Dict
use wotpy.Dict.{Dict}
use wotpy.Dict.Laws.{get-set_same}
use wotpy.Json.{Json}
use wotpy.Sets.{mem}
use wotpy.Mqtt.Client.{
  MqttClient, Message, new_message, clean_messages, clean_topics, or_empty, topic_list,
  topic_messages, next_match, find_in, with_topic, append_message,
}

keep_all : (ms : List Message) → keep (λ msg. true) ms ≡ ms
keep_all [] = refl
keep_all (m ∷ ms) = ap (λ r. m ∷ r) (keep_all ms)

-- The first match of a list that loses some messages, where it had no match before its last message.
find_in-keep :
    (f : Message → Outcome Bool) (g : Message → Bool) (ms : List Message) (m : Message)
    → find_in f ms ≡ ok none
    → f m ≡ ok true
    → g m ≡ true
    → find_in f (keep g (ms ++ m ∷ [])) ≡ ok (some m)
find_in-keep f g [] m h fm gm = rw (gm, fm) refl
find_in-keep f g (x ∷ ms) m h fm gm = go (f x) refl h (λ q. find_in-keep f g ms m q fm gm)
  where
    go :
        (r : Outcome Bool)
        → f x ≡ r
        → elim r [ raised e ↦ raised e | ok true ↦ ok (some x) | ok false ↦ find_in f ms ] ≡ ok none
        → (find_in f ms ≡ ok none → find_in f (keep g (ms ++ m ∷ [])) ≡ ok (some m))
        → find_in f (keep g (x ∷ (ms ++ m ∷ []))) ≡ ok (some m)
    go (raised e) q h rest = absurd (ground (arith, h))
    go (ok true) q h rest = absurd (ground (arith, h))
    go (ok false) q h rest = elim (Bool-cases (g x)) [
      | inl kept ↦ rw (kept, q) (rest h)
      | inr dropped ↦ rw dropped (rest h)
    ]

topic_list-clean_topics :
    (ttl now : ℕ) (topic : String) (d : Dict String (List Message))
    → topic_list topic (clean_topics ttl now d)
      ≡ keep (λ msg. ltb now (msg.time + ttl)) (topic_list topic d)
unfolding Dict.get
topic_list-clean_topics ttl now topic [] = refl
topic_list-clean_topics ttl now topic ((t, ms) ∷ d) = elim (Bool-cases (t == topic)) [
  | inl same ↦ rw same refl
  | inr other ↦ rw other (topic_list-clean_topics ttl now topic d)
]

listed_nothing :
    (ttl now : ℕ) (topic : String)
    → topic_list topic [] ≡ keep (λ msg. ltb now (msg.time + ttl)) (topic_list topic [])
unfolding Dict.get
listed_nothing ttl now topic = refl

abbrev listed : String → String → MqttClient → List Message
listed broker_url topic s = topic_list topic (or_empty (Dict.get broker_url s.messages))

listed-clean_messages :
    (ttl now : ℕ) (broker_url topic : String) (s : MqttClient)
    → listed broker_url topic (clean_messages ttl now broker_url s)
      ≡ keep (λ msg. ltb now (msg.time + ttl)) (listed broker_url topic s)
unfolding clean_messages
listed-clean_messages ttl now broker_url topic s = go (Dict.get broker_url s.messages) refl
  where
    go :
        (o : Option (Dict String (List Message)))
        → Dict.get broker_url s.messages ≡ o
        → listed broker_url topic (elim o [
          | none ↦ s
          | some d ↦ record s { messages = Dict.set broker_url (clean_topics ttl now d) s.messages }
        ])
          ≡ keep (λ msg. ltb now (msg.time + ttl)) (topic_list topic (or_empty o))
    go none e = rw e (listed_nothing ttl now topic)
    go (some d) e =
        rw (get-set_same broker_url (clean_topics ttl now d) s.messages)
          (topic_list-clean_topics ttl now topic d)

listed-append_message :
    (broker_url topic : String) (msg : Message) (s : MqttClient)
    → listed broker_url topic (append_message broker_url topic msg s)
      ≡ listed broker_url topic s ++ msg ∷ []
listed-append_message broker_url topic msg s =
    let d = or_empty (Dict.get broker_url s.messages) in
    rw
      (
        get-set_same broker_url (Dict.set topic (topic_list topic d ++ msg ∷ []) d) s.messages,
        get-set_same topic (topic_list topic d ++ msg ∷ []) d,
      )
      refl

listed-with_topic :
    (broker_url topic : String) (s : MqttClient)
    → listed broker_url topic (with_topic broker_url topic s) ≡ listed broker_url topic s
listed-with_topic broker_url topic s =
    let d = or_empty (Dict.get broker_url s.messages) in
    rw
      (
        get-set_same broker_url (Dict.set topic (topic_list topic d) d) s.messages,
        get-set_same topic (topic_list topic d) d,
      )
      refl

next_match-listed :
    (broker_url topic : String) (func : Message → Outcome Bool) (s : MqttClient)
    → next_match broker_url topic func s ≡ find_in func (listed broker_url topic s)
unfolding next_match topic_messages
next_match-listed broker_url topic func s = ap (find_in func) (keep_all (listed broker_url topic s))

stored :
    (ttl : ℕ) (broker_url topic : String) (json : Json) (id : String) (now later : ℕ)
    (s : MqttClient)
    → Dict.contains broker_url s.msg_conditions ≡ true
    → mem topic (or_empty (Dict.get broker_url s.msg_conditions)) ≡ true
    → (new_message ttl broker_url topic (ok json) id now later s).1
      ≡ clean_messages ttl later broker_url (
          append_message broker_url topic
            (record { id = id; data_ = json; time = now })
            (with_topic broker_url topic s))
unfolding new_message
stored ttl broker_url topic json id now later s known listens = rw (known, listens) refl

-- An operation that waits on a topic for a message of some form, finds the message that has just arrived on
-- it, where no message before it had the form and the clean-up comes within the message's lifetime.
pub next_match-new_message :
    (ttl : ℕ) (broker_url topic : String) (json : Json) (id : String) (now later : ℕ)
    (func : Message → Outcome Bool) (s : MqttClient)
    → Dict.contains broker_url s.msg_conditions ≡ true
    → mem topic (or_empty (Dict.get broker_url s.msg_conditions)) ≡ true
    → next_match broker_url topic func s ≡ ok none
    → func (record { id = id; data_ = json; time = now }) ≡ ok true
    → later < now + ttl
    → next_match broker_url topic func (new_message ttl broker_url topic (ok json) id now later s).1
      ≡ ok (some (record { id = id; data_ = json; time = now }))
next_match-new_message ttl broker_url topic json id now later func s known listens before form
      alive =
    let msg : Message = record { id = id; data_ = json; time = now } in
    let prepared = with_topic broker_url topic s in
    let appended = append_message broker_url topic msg prepared in
    let old = listed broker_url topic s in
    ap (next_match broker_url topic func)
      (stored ttl broker_url topic json id now later s known listens)
    ∙ next_match-listed broker_url topic func (clean_messages ttl later broker_url appended)
    ∙ ap (find_in func) (
        listed-clean_messages ttl later broker_url topic appended
        ∙ ap (keep (λ m. ltb later (m.time + ttl))) (
            listed-append_message broker_url topic msg prepared
            ∙ ap (λ ms. ms ++ msg ∷ []) (listed-with_topic broker_url topic s)))
    ∙ find_in-keep func (λ m. ltb later (m.time + ttl)) old msg
        (sym (next_match-listed broker_url topic func s) ∙ before) form (ground (arith, alive))
