-- ===== src/Analytics.antt =====
-- The events of redirects: what is known of a visitor, and how events reach the database.
pub mod UserAgent
pub mod Hasher
pub mod Event
pub mod Service
pub mod Query
pub mod Queries
mod Tests
