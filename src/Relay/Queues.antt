-- ===== src/Relay/Queues.antt =====
-- The operations of relay/src/state.rs on queues, one child for each group of them.
pub mod Tables
pub mod Create
pub mod Subscribe
pub mod Push
pub mod Mailbox
pub mod Group
pub mod Ack
