-- ===== src/Relay.antt =====
-- The relay crate: relay/src/state.rs. `State` has its data, `Limits` the rate and storage limits,
-- `Gate` what guards the creation of queues, `Queues` the operations on queues, `Handle` the
-- dispatch of a wire message and the histories of a relay, `Net` the loop of a connection,
-- `Open` the reload of the tables and `Persist` how they stand to the queues. `Epochs`,
-- `Storage`, `Admission`, `Delivery` and `Rate` are theorems about histories and operations.
pub mod State
pub mod Limits
pub mod Gate
pub mod Queues
pub mod Handle
pub mod Net
pub mod Open
pub mod Persist
pub mod Epochs
pub mod Storage
pub mod Admission
pub mod Delivery
pub mod Rate
