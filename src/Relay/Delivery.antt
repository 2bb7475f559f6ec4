-- ===== src/Relay/Delivery.antt =====
-- What becomes of a message that the relay of relay/src/state.rs has accepted.
pub mod Holds
pub mod Kept
pub mod Fanned
pub mod Subscribed
