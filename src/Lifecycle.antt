-- ===== src/Lifecycle.antt =====
-- The use cases one after another, on the databases and the cache that they share.
pub mod Creation
pub mod Changes
pub mod Races
mod Tests
