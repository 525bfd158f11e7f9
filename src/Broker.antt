-- ===== src/Broker.antt =====
-- The handlers of a binding with a broker: wotpy/protocols/mqtt/handlers and
-- wotpy/protocols/zenoh/handlers, which have one structure.
mod Topics
mod Defs
mod Answers
pub mod Subs
pub mod Subscribed
pub mod Failing
pub mod Runner
pub mod Delivery
pub mod Progress
pub mod Stopping
pub mod Requests
pub mod Invocations
unfoldable pub use Topics.*
unfoldable pub use Defs.*
unfoldable pub use Answers.*
