-- ===== src/Engine.antt =====
-- The engine crate (engine/src), which drives a session over a relay: what it does with a message that
-- the relay pushes.
pub mod Receive
