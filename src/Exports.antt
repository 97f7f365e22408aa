-- ===== src/Exports.antt =====
-- Exports of the events of redirects: jobs, the worker that fills their files, and downloads.
pub mod Entity
pub mod Signing
pub mod Repository
pub mod UseCases
pub mod Worker
pub mod Download
mod Tests
