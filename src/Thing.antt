-- ===== src/Thing.antt =====
-- wotpy/wot/thing.py, wotpy/wot/interaction.py and wotpy/wot/form.py: a Thing, its interactions and
-- their forms. An object's identity (`is`, and the hash of an object with no `__eq__`) is its `oid`.
-- `slugify` and the built-in `hash` are parameters.
mod Defs
pub mod Unique
pub mod WellFormed
pub mod Find
pub mod Forms
unfoldable pub use Defs.*
