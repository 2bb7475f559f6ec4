-- ===== src/Proto/Attestation.antt =====
-- proto/src/attestation.rs: single-use tokens that the directory signs. Ed25519 is a parameter.
pub mod Payload
use rosette.Prelude.{ℕ, List, ◌++◌, Bool, false, Option, none, some, ◌≡◌, true}
use rosette.Prelude.Int.{ℤ, leb_ℤ, word64}
use rosette.Prelude.Bytes.{be_bytes}

pub record AttestationToken : Type 0 where
  pub nonce : ℕ
  pub expires_at : ℤ
  pub signature : List ℕ

-- Keys and parsed signatures are the arrays of bytes that they are made from.
pub record Ed25519 : Type 0 where
  pub verifying_key : ℕ → ℕ
  pub sign : ℕ → List ℕ → List ℕ
  pub from_slice : List ℕ → Option ℕ
  pub verify : ℕ → List ℕ → ℕ → Bool

-- A signature that is made with a key parses, and verifies under its public key.
pub record VerifiesSigned (ed : Ed25519) : Type 0 where
  pub parsed : ℕ → List ℕ → ℕ
  pub from_slice-sign :
      (sk : ℕ) (msg : List ℕ) → ed.from_slice (ed.sign sk msg) ≡ some (parsed sk msg)
  pub verify-sign :
      (sk : ℕ) (msg : List ℕ) → ed.verify (ed.verifying_key sk) msg (parsed sk msg) ≡ true

-- `nonce || expires_at`, both big-endian
unfoldable pub signed_payload : ℕ → ℤ → List ℕ
signed_payload nonce expires_at = be_bytes 16 nonce ++ be_bytes 8 (word64 expires_at)

module _ (ed : Ed25519) where
  unfoldable pub sign : ℕ → ℕ → ℤ → AttestationToken
  sign signing_key nonce expires_at = record {
    nonce = nonce;
    expires_at = expires_at;
    signature = ed.sign signing_key (signed_payload nonce expires_at);
  }

  unfoldable pub signature_valid : AttestationToken → ℕ → Bool
  signature_valid t key = elim (ed.from_slice t.signature) [
    | none ↦ false
    | some sig ↦ ed.verify key (signed_payload t.nonce t.expires_at) sig
  ]

abbrev pub is_expired : AttestationToken → ℤ → Bool
is_expired t now_unix = leb_ℤ t.expires_at now_unix
