-- ===== src/Audit.antt =====
-- The log of write operations: what a request records, and how the records reach the database.
pub mod Event
pub mod Repository
pub mod Service
pub mod Middleware
mod Tests
