-- ===== src/Handlers.antt =====
-- What the API answers: the decoded request in, a response out, around the use cases.
pub mod Response
pub mod Urls
pub mod Shorten
pub mod ApiKeys
pub mod Webhooks
pub mod Workspaces
pub mod Analytics
pub mod Tokens
mod Tests
