-- ===== src/Relay/Admission.antt =====
-- Who may create a queue: the challenges and tokens of relay/src/state.rs, over histories.
pub mod Spent
pub mod Challenges
pub mod Tokens
