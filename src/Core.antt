-- ===== src/Core.antt =====
-- The core crate (core/src), which the clients stand on: the recovery bundle, the encrypted store and
-- the session snapshot.
pub mod Outcome
pub mod Phrase
pub mod Backup
pub mod Storage
pub mod Session
