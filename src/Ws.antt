-- ===== src/Ws.antt =====
-- wotpy/protocols/ws: the messages and the handler of the WebSockets binding.
mod Messages
mod Handler
pub mod Parsing
pub mod Replies
pub mod Subscriptions
pub mod Access
pub mod Client
pub mod Waiting
pub mod Connections
pub mod Runs
pub mod Answers
pub mod Streaming
unfoldable pub use Messages.*
unfoldable pub use Handler.*
