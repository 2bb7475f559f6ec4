-- ===== src/Proto.antt =====
-- The proto crate (proto/src): every type that crosses the boundary of client and relay, and the
-- pure functions that both ends share. Fixed-size byte arrays stand as the number whose big-endian
-- bytes they hold; `Vec<u8>` is a list of bytes.
pub mod Limits
pub mod Error
pub mod Codec
pub mod Envelope
pub mod Auth
pub mod Pow
pub mod Attestation
pub mod Link
pub mod Wire
pub mod Framing
