-- ===== src/Proto/Envelope.antt =====
-- proto/src/envelope.rs: the message envelope and the padding of ciphertexts.
pub mod Padding
use rosette.Prelude.{
  ℕ, ◌-◌, List, [], ◌∷◌, ◌++◌, Bool, Option, none, some, leb, if◌then◌else◌, length, replicate,
}

pub data DeliveryMode : Type 0 where
  relay_fanout pairwise signaling : DeliveryMode

pub record Envelope : Type 0 where
  pub message_id : ℕ
  pub delivery_mode : DeliveryMode
  pub padded_ciphertext : List ℕ

abbrev pub padding_buckets : List ℕ
padding_buckets = 1024 ∷ 4096 ∷ 16384 ∷ 32768 ∷ 65536 ∷ []

-- `Iterator::find`
find : (ℕ → Bool) → List ℕ → Option ℕ
find p [] = none
find p (x ∷ xs) = if p x then some x else find p xs

unfoldable pub padded_bucket_for : ℕ → Option ℕ
unfolding find
padded_bucket_for len = find (λ b. leb len b) padding_buckets

resize : List ℕ → ℕ → List ℕ
resize bytes n = bytes ++ replicate (n - length bytes) 0

unfoldable pub pad : List ℕ → Option (List ℕ)
unfolding resize
pad wire_bytes = elim (padded_bucket_for (length wire_bytes)) [
  | none ↦ none
  | some bucket ↦ some (resize wire_bytes bucket)
]
