-- ===== src/Http.antt =====
-- wotpy/protocols/http: credentials on both sides, and the handlers of requests.
pub mod Auth
pub mod Handlers
pub mod Routes
pub mod Safety
pub mod SignIn
pub mod Addresses
pub mod ReadBack
pub mod Client
pub mod Requests
pub mod Served
pub mod Invoked
unfoldable pub use Auth.*
unfoldable pub use Handlers.*
unfoldable pub use Routes.*
