-- ===== src/Broker/Topics.antt =====
-- The topics of the handlers. `"{}/a/{}".format(x, y)` is the join of its parts by slashes.
use wotpy.Prelude.{
  ℕ, zero, suc, Option, none, some, List, [], ◌∷◌, Text, codes, split, join, length, nat_beq,
  if◌then◌else◌,
}
use wotpy.Outcome.{Outcome, ok, raised, index_error}

abbrev pub slash : List Text → Text
slash parts = join b'/' parts

-- `topic.split("/")`
abbrev pub levels : Text → List Text
levels topic = split b'/' topic

unfoldable pub topic_ping : Text → Text
topic_ping servient_id = slash (servient_id ∷ codes "ping" ∷ [])

unfoldable pub topic_pong : Text → Text
topic_pong servient_id = slash (servient_id ∷ codes "pong" ∷ [])

-- `wildcard` is `#` for MQTT and `**` for Zenoh.
unfoldable pub topic_wildcard_requests : Text → Text → Text
topic_wildcard_requests wildcard servient_id =
    slash (servient_id ∷ codes "property" ∷ codes "requests" ∷ wildcard ∷ [])

unfoldable pub topic_wildcard_invocation : Text → Text → Text
topic_wildcard_invocation wildcard servient_id =
    slash (servient_id ∷ codes "action" ∷ codes "invocation" ∷ wildcard ∷ [])

unfoldable pub build_property_updates_topic : Text → Text → Text → Text
build_property_updates_topic servient_id thing prop =
    slash (servient_id ∷ codes "property" ∷ codes "updates" ∷ thing ∷ prop ∷ [])

unfoldable pub build_action_result_topic : Text → Text → Text → Text
build_action_result_topic servient_id thing act =
    slash (servient_id ∷ codes "action" ∷ codes "result" ∷ thing ∷ act ∷ [])

unfoldable pub build_event_topic : Text → Text → Text → Text
build_event_topic servient_id thing evt = slash (servient_id ∷ codes "event" ∷ thing ∷ evt ∷ [])

-- The topics that the server's forms give to clients.
unfoldable pub property_requests_topic : Text → Text → Text → Text
property_requests_topic servient_id thing prop =
    slash (servient_id ∷ codes "property" ∷ codes "requests" ∷ thing ∷ prop ∷ [])

unfoldable pub action_invocation_topic : Text → Text → Text → Text
action_invocation_topic servient_id thing act =
    slash (servient_id ∷ codes "action" ∷ codes "invocation" ∷ thing ∷ act ∷ [])

abbrev from_front : ℕ → List Text → Option Text
from_front n [] = none
from_front zero (x ∷ xs) = some x
from_front (suc n) (x ∷ xs) = from_front n xs

abbrev reversed : List Text → List Text → List Text
reversed [] out = out
reversed (x ∷ xs) out = reversed xs (x ∷ out)

-- `parts[-(n + 1)]`
abbrev pub from_end : ℕ → List Text → Option Text
from_end n parts = from_front n (reversed parts [])

abbrev pub three_of :
    (Text → Text → Text → Text) → Option Text → Option Text → Option Text → Outcome Text
three_of f (some a) (some b) (some c) = ok (f a b c)
three_of f _ _ _ = raised (index_error "list index out of range")

abbrev pub ack_topic : Text → Text → Text → Text
ack_topic servient_id thing prop =
    slash (servient_id ∷ codes "property" ∷ codes "ack" ∷ thing ∷ prop ∷ [])

unfoldable pub to_write_ack_topic : Text → Outcome Text
to_write_ack_topic requests_topic =
    let parts = levels requests_topic in
    three_of ack_topic (from_end 4 parts) (from_end 1 parts) (from_end 0 parts)

unfoldable pub to_result_topic : Text → Outcome Text
unfolding build_action_result_topic
to_result_topic invocation_topic =
    let parts = levels invocation_topic in
    three_of build_action_result_topic (from_end 4 parts) (from_end 1 parts) (from_end 0 parts)

abbrev pub pair_of : Option Text → Option Text → Option (Text × Text)
pair_of (some a) (some b) = some (a, b)
pair_of _ _ = none

-- `topic_split[-2], topic_split[-1]` of a topic with one level more than the wildcard: that of the
-- Thing and that of the interaction. Such a topic has two levels.
unfoldable pub target_of : Text → Text → Option (Text × Text)
target_of wildcard topic =
    if nat_beq (length (levels topic)) (suc (length (levels wildcard)))
    then pair_of (from_end 1 (levels topic)) (from_end 0 (levels topic))
    else none
