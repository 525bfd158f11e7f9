-- ===== src/Exposed.antt =====
-- wotpy/wot/exposed/thing.py, wotpy/wot/exposed/interaction_map.py and wotpy/wot/events.py.
mod Defs
mod Changes
mod Objects
pub mod Properties
pub mod Streams
pub mod Editing
unfoldable pub use Defs.*
unfoldable pub use Changes.*
unfoldable pub use Objects.*
