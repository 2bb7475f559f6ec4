-- ===== src/Directory.antt =====
-- The directory crate (directory/src): its configuration and rate limiter, phone verification,
-- usernames with their discriminators, recovery bundles, the tables, search, the tokens that it
-- signs, and its HTTP service.
pub mod RateLimit
pub mod Username
pub mod Backup
pub mod Config
pub mod Verify
pub mod Store
pub mod Search
pub mod Attestation
pub mod Api
