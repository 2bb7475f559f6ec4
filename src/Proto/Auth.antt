-- ===== src/Proto/Auth.antt =====
-- proto/src/auth.rs: the tag that authorizes a send. HMAC-SHA256 is a parameter of `compute_tag`.
use rosette.Prelude.{ℕ, List, ◌++◌, Bool, ◌==◌}
use rosette.Prelude.Bytes.{be_bytes}
use rosette.Proto.Codec.{Codec}
use rosette.Proto.Envelope.{Envelope}

-- `hmac key message` is the digest, a 32-byte array.
module _ (hmac : List ℕ → List ℕ → ℕ) (codec : Codec Envelope) where
  unfoldable pub compute_tag : ℕ → ℕ → Envelope → ℕ
  compute_tag send_key queue_id envelope =
      hmac (be_bytes 32 send_key) (be_bytes 32 queue_id ++ codec.encode envelope)

  unfoldable pub verify_tag : ℕ → ℕ → Envelope → ℕ → Bool
  verify_tag send_key queue_id envelope tag = compute_tag send_key queue_id envelope == tag
