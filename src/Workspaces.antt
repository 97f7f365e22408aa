-- ===== src/Workspaces.antt =====
-- Workspaces, their members, and what a member may do.
pub mod Roles
pub mod Slug
pub mod Entity
pub mod Repository
pub mod Membership
pub mod Lists
mod Tests
