-- ===== src/Broker/Stopping.antt =====
-- What the loops of a runner still do once it was asked to stop.
use wotpy.Prelude.{Bool, true, false, List, [], ◌∷◌}
use wotpy.Broker.Runner.{Runner, Event, Delivery, delivers, handles, publishes, enqueues}

module _ {M O : Type 0} where
  abbrev pub has_delivers : List (Event M O) → Bool
  has_delivers [] = false
  has_delivers (delivers delivery ∷ es) = true
  has_delivers (handles ∷ es) = has_delivers es
  has_delivers (publishes succeeds ∷ es) = has_delivers es
  has_delivers (enqueues o ∷ es) = has_delivers es

  abbrev pub has_publishes : List (Event M O) → Bool
  has_publishes [] = false
  has_publishes (delivers delivery ∷ es) = has_publishes es
  has_publishes (handles ∷ es) = has_publishes es
  has_publishes (publishes succeeds ∷ es) = true
  has_publishes (enqueues o ∷ es) = has_publishes es
