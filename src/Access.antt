-- ===== src/Access.antt =====
-- Who may do what: the claims of a caller and the roles of a workspace.
pub mod Claims
pub mod ApiKeyAuth
pub mod Authenticate
pub mod WorkspaceAuth
pub mod DenyList
mod Tests
