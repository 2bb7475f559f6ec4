-- ===== src/Relay/Storage.antt =====
-- The storage that the relay of relay/src/state.rs counts. `Account` is about what the operations do
-- to the count, `Bound` about histories.
pub mod Account
pub mod Bound
