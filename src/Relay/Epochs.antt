-- ===== src/Relay/Epochs.antt =====
-- The delivery service of relay/src/state.rs: the epochs of the group inboxes. `Inbox` is about what
-- each operation does to the inboxes, `Calls` about `handle`, `Order` about histories.
pub mod Inbox
pub mod Calls
pub mod Order
