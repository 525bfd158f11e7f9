-- ===== src/Servient/Select.antt =====
-- `Servient._default_select_client`: which client a consumer uses for an interaction.
use wotpy.Prelude.{
  ℕ, ◌+◌, ◌≤◌, String, ◌≡◌, ◌∙◌, refl, ap, Bool, Bool-cases, true, false, Option, none, some, List,
  [], ◌∷◌, ◌==◌, nat_eq, string_eq, eq_iff, ◌⊎◌, inl, inr, All, find?, find?-sound, arith,
  if◌then◌else◌,
}
use wotpy.Outcome.{Outcome, ok, raised, value_error, index_error}
use wotpy.Thing.{InteractionType, property, action, event}
use wotpy.Servient.Defs.{Client, mem}

-- The names of the interactions of a description.
pub record TdNames : Type 0 where
  pub properties : List String
  pub actions : List String
  pub events : List String

abbrev pub protocol_preference : InteractionType → List String
protocol_preference property = "MQTT" ∷ "ZENOH" ∷ "HTTP" ∷ "COAP" ∷ "WEBSOCKETS" ∷ []
protocol_preference action = "HTTP" ∷ "WEBSOCKETS" ∷ "MQTT" ∷ "ZENOH" ∷ "COAP" ∷ []
protocol_preference event = "WEBSOCKETS" ∷ "MQTT" ∷ "ZENOH" ∷ "COAP" ∷ "HTTP" ∷ []

-- The first of the three kinds that has the name.
unfoldable pub interaction_type : TdNames → String → Option InteractionType
interaction_type td name =
    if mem name td.properties
    then some property
    else if mem name td.actions
    then some action
    else if mem name td.events
    then some event
    else none

-- `[client.protocol for client in clients if client.is_supported_interaction(td, name)]`
abbrev pub supported_protocols : String → List Client → List String
supported_protocols name [] = []
supported_protocols name (c ∷ cs) =
    let rest = supported_protocols name cs in if c.supports name then c.protocol ∷ rest else rest

-- `list(clients)[0]`
abbrev pub first_client : List Client → Outcome Client
first_client [] = raised (index_error "list index out of range")
first_client (c ∷ cs) = ok c

abbrev client_for : Option Client → Outcome Client
client_for none = raised (index_error "StopIteration")
client_for (some c) = ok c

-- The first preferred protocol that is supported, and the first client with that protocol.
abbrev pub pick : List Client → Option String → Outcome Client
pick clients none = first_client clients
pick clients (some protocol) = client_for (find? (λ (c : Client). c.protocol == protocol) clients)

abbrev pub choose : List Client → String → Option InteractionType → Outcome Client
choose clients name none = raised (value_error "Unknown interaction")
choose clients name (some kind) =
    pick clients
      (find? (λ proto. mem proto (supported_protocols name clients)) (protocol_preference kind))

unfoldable pub default_select_client : List Client → TdNames → String → Outcome Client
default_select_client clients td name = choose clients name (interaction_type td name)

-- The place of a protocol in a list of preferences; the length where it is not there.
abbrev pub rank : String → List String → ℕ
rank proto [] = 0
rank proto (q ∷ qs) = if q == proto then 0 else rank proto qs + 1

abbrev pub IsIn : Client → List Client → Type 0
IsIn d [] = ⊥
IsIn d (c ∷ cs) = (c ≡ d) ⊎ IsIn d cs

-- The clients of a servient stand under their protocols: no two have one protocol.
abbrev pub UniqueProtocols : List Client → Type 0
UniqueProtocols [] = Unit
UniqueProtocols (c ∷ cs) =
    All (λ (d : Client). (d.protocol == c.protocol) ≡ false) cs × UniqueProtocols cs

supported_of_IsIn :
    (name : String) (d : Client) (cs : List Client)
    → IsIn d cs
    → d.supports name ≡ true
    → mem d.protocol (supported_protocols name cs) ≡ true
supported_of_IsIn name d [] i h = absurd i
supported_of_IsIn name d (c ∷ cs) (inl same) h = ground (arith, eq_iff d.protocol d.protocol)
supported_of_IsIn name d (c ∷ cs) (inr later) h =
    ground (arith, supported_of_IsIn name d cs later h)

not_supported :
    (name proto : String) (cs : List Client)
    → All (λ (d : Client). (d.protocol == proto) ≡ false) cs
    → mem proto (supported_protocols name cs) ≡ false
not_supported name proto [] h = refl
not_supported name proto (c ∷ cs) h = ground (arith, not_supported name proto cs)

-- The client with a supported protocol is there, and supports the interaction.
client_of_supported :
    (name proto : String) (cs : List Client)
    → UniqueProtocols cs
    → mem proto (supported_protocols name cs) ≡ true
    → (c : Client) × (find? (λ (c : Client). c.protocol == proto) cs ≡ some c)
      × (c.supports name ≡ true)
client_of_supported name proto [] u m = absurd (ground arith)
client_of_supported name proto (c ∷ cs) u m = elim (Bool-cases (c.protocol == proto)) [
  | inl here ↦
      let e : c.protocol ≡ proto = (eq_iff c.protocol proto).0 here in
      (c, ground arith, ground (arith, not_supported name proto cs (rw (← e) u.0)))
  | inr other ↦
      let (d, found, supports) = client_of_supported name proto cs u.1 (ground arith) in
      (d, ground arith, supports)
]

first_has_least_rank :
    (p : String → Bool) (proto other : String) (prefs : List String)
    → find? p prefs ≡ some proto
    → p other ≡ true
    → rank proto prefs ≤ rank other prefs
first_has_least_rank p proto other [] f h = omega arith
first_has_least_rank p proto other (q ∷ qs) f h =
    ground (arith, first_has_least_rank p proto other qs, eq_iff q proto, eq_iff q other)

first_is_found :
    (p : String → Bool) (other : String) (prefs : List String)
    → mem other prefs ≡ true
    → p other ≡ true
    → (proto : String) × (find? p prefs ≡ some proto) × (p proto ≡ true)
first_is_found p other [] m h = absurd (ground arith)
first_is_found p other (q ∷ qs) m h = elim (Bool-cases (p q)) [
  | inl here ↦ (q, ground arith, here)
  | inr no_q ↦
      let (proto, found, good) = first_is_found p other qs (ground (arith, eq_iff q other)) h in
      (proto, ground arith, good)
]

-- Of clients with different protocols, where one supports an interaction of the description by a
-- preferred protocol, `select_client` returns a client
-- that supports it, and no client that supports it has a protocol that is preferred to its own.
pub default_select_client_best :
    (clients : List Client) (td : TdNames) (name : String) (kind : InteractionType) (d : Client)
    → UniqueProtocols clients
    → interaction_type td name ≡ some kind
    → IsIn d clients
    → d.supports name ≡ true
    → mem d.protocol (protocol_preference kind) ≡ true
    → (c : Client) × (default_select_client clients td name ≡ ok c)
      × (c.supports name ≡ true)
      × (rank c.protocol (protocol_preference kind) ≤ rank d.protocol (protocol_preference kind))
unfolding default_select_client
default_select_client_best clients td name kind d u k i h m =
    let p = λ (proto : String). mem proto (supported_protocols name clients) in
    let good : p d.protocol ≡ true = supported_of_IsIn name d clients i h in
    let prefs = protocol_preference kind in
    let (proto, first, supported) = first_is_found p d.protocol prefs m good in
    let (c, found, supports) = client_of_supported name proto clients u supported in
    let same : c.protocol ≡ proto =
      (eq_iff c.protocol proto).0
        (find?-sound (λ (c : Client). c.protocol == proto) clients c found) in
    (
      c,
      rw (k, default_select_client) (ap (pick clients) first ∙ ap client_for found),
      supports,
      rw same (first_has_least_rank p proto d.protocol prefs first good),
    )
