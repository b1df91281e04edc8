-- ===== src/Services.antt =====
-- The services server: its catalogs and the versions of their packages, and the secrets of releases.
pub mod Config
pub mod Versions
pub mod Domain
pub mod Catalogs
pub mod Secrets
pub mod Install
pub mod Controller
pub mod Helm
pub mod Release
pub mod Router
pub mod Server
pub mod System
