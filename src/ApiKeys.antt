-- ===== src/ApiKeys.antt =====
-- API keys: how they are made, stored, listed and revoked.
pub mod Entity
pub mod Secrets
pub mod Repository
pub mod UseCases
pub mod Laws
mod Tests
