-- ===== src/Urls.antt =====
-- The URL entity, its table and its cache.
pub mod Entity
pub mod Repository
pub mod Cache
pub mod Store
mod Tests
