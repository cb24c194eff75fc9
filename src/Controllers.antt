-- ===== src/Controllers.antt =====
-- The package internal/controllers: the reconcilers of pools and instances, and the claim handler.
pub mod Util
pub mod Pool
pub mod Instance
pub mod Patched
pub mod Handler
pub mod Claim
