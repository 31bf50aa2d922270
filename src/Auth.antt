-- ===== src/Auth.antt =====
-- Who may do what: token rules (server/oidc) and the server's access checks (server/auth.go).
pub mod Glob
pub mod Claims
pub mod Access
mod Tests
