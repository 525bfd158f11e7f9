-- ===== src/Tests.antt =====
-- Concrete things, servients and messages, and the theorems applied to them.
pub mod Data
pub mod Things
pub mod Exposing
pub mod Servients
pub mod Wire
pub mod Brokers
pub mod Runners
pub mod Https
pub mod Calls
pub mod Picking
pub mod Sockets
pub mod Zenohs
pub mod Dictionary
pub mod Served
pub mod Reached
