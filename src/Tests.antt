-- ===== src/Tests.antt =====
-- Concrete inputs at which the theorems are applied, and runs of the code on them.
mod Fixtures
mod Dpop
mod Oidc
mod Onboarding
mod Services
mod Catalogs
mod Secrets
mod Helm
mod Release
mod Server
mod Routes
mod Answers
mod Installation
mod Security
mod Configloader
