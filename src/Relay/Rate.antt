-- ===== src/Relay/Rate.antt =====
-- The rate limit of a relay's queue over a sequence of sends (relay/src/state.rs).
pub mod Windows
