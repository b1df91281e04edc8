-- ===== src/Dpop.antt =====
-- internal/auth/oidc/dpop: DPoP proofs (RFC 9449) and their replay cache.
pub mod Time
pub mod Jti
pub mod Request
pub mod Verify
