-- ===== src/Onboarding.antt =====
-- The onboarding service (onboarding/): a namespace and a resource quota for a user or a group.
pub mod Domain
pub mod Adapter
pub mod Usecase
pub mod Controller
pub mod Server
