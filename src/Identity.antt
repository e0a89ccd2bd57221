-- ===== src/Identity.antt =====
-- The identity crates: crates/identity.
pub mod Session
pub mod StateStore
pub mod Local
pub mod OAuth2
