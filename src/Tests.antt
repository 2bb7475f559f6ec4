-- ===== src/Tests.antt =====
-- Witnesses of the theorems.
pub mod Fixture
pub mod Accounts
pub mod Packed
mod PhoneRuns
mod OpenRuns
mod EngineRuns
mod RelayRuns
mod DirectoryRuns
mod ProtoRuns
mod NetRuns
mod ApiRuns
mod StoreRuns
