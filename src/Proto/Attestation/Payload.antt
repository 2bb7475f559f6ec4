-- ===== src/Proto/Attestation/Payload.antt =====
-- What the signature of an attestation token covers.
use rosette.Prelude.{ℕ, ◌^◌, ◌<◌, ◌≡◌, true, sym, ◌∙◌}
use rosette.Prelude.Int.{ℤ, IsI64, word64, word64-lt, word64_injective}
use rosette.Prelude.Bytes.{be_bytes, length-be_bytes, be_bytes_injective, append_injective}
use rosette.Proto.Attestation.{Ed25519, VerifiesSigned, signed_payload, sign, signature_valid}

-- Two tokens with nonces of 16 bytes, expiries that are an `i64`, and one signed payload have one
-- nonce and one expiry.
pub signed_payload_injective :
    (n m : ℕ) (x y : ℤ)
    → n < 256 ^ 16
    → m < 256 ^ 16
    → IsI64 x
    → IsI64 y
    → signed_payload n x ≡ signed_payload m y
    → (n ≡ m) × (x ≡ y)
unfolding signed_payload
signed_payload_injective n m x y hn hm hx hy e = (
  be_bytes_injective 16 n m hn hm parts.0,
  word64_injective x y hx hy
      (be_bytes_injective 8 (word64 x) (word64 y) (word64-lt x) (word64-lt y) parts.1),
)
  where
    parts : (be_bytes 16 n ≡ be_bytes 16 m) × (be_bytes 8 (word64 x) ≡ be_bytes 8 (word64 y))
    parts =
        append_injective (be_bytes 16 n) (be_bytes 16 m) (be_bytes 8 (word64 x))
          (be_bytes 8 (word64 y)) (length-be_bytes 16 n ∙ sym (length-be_bytes 16 m)) e

-- If signatures that a key makes parse and verify under its public key, a token that the directory
-- signs is valid under the directory's public key.
pub signature_valid-sign :
    (ed : Ed25519) (law : VerifiesSigned ed) (sk nonce : ℕ) (expires_at : ℤ)
    → signature_valid ed (sign ed sk nonce expires_at) (ed.verifying_key sk) ≡ true
unfolding signature_valid sign
signature_valid-sign ed law sk nonce expires_at =
    rw (law.from_slice-sign sk (signed_payload nonce expires_at), signature_valid)
      (law.verify-sign sk (signed_payload nonce expires_at))
