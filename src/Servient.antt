-- ===== src/Servient.antt =====
-- wotpy/wot/servient.py and wotpy/protocols/server.py: the servers, clients and ExposedThings of a
-- servient, and whether it runs.
mod Forms
mod Defs
pub mod Select
pub mod Stopped
pub mod Exposes
pub mod Sync
pub mod Late
pub mod Removal
pub mod Regenerate
pub mod Urls
unfoldable pub use Forms.*
unfoldable pub use Defs.*
