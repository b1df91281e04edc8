-- ===== src/Oidc.antt =====
-- internal/auth/oidc/oidc.go and internal/auth/noauth: who a request is from.
pub mod Claims
pub mod Verify
pub mod New
