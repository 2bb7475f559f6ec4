-- ===== src/Directory/Attestation.antt =====
-- directory/src/attestation.rs. Ed25519, the environment and the generator of nonces are parameters.
pub mod Accepted
use rosette.Prelude.{
  ℕ, ◌+◌, ◌-◌, ◌*◌, List, [], ◌∷◌, ◌++◌, map, zero, suc, false, Bool, ◌&&◌, Option, none, some, leb,
  ltb, ◌==◌, if◌then◌else◌, length, replicate,
}
use rosette.Prelude.Int.{pos}
use rosette.Prelude.Text.{Text}
use rosette.Proto.Attestation.{Ed25519, AttestationToken, sign}

abbrev pub token_ttl_secs : ℕ
token_ttl_secs = 30 * 24 * 60 * 60

abbrev pub batch_size : ℕ
batch_size = 20

-- Slicing a text inside a character panics.
pub data Decoded : Type 0 where
  seed : List ℕ → Decoded
  not_hex : Decoded
  panics : Decoded

-- `char::to_digit(16)`
unfoldable pub hex_value : ℕ → Option ℕ
hex_value c =
    if leb b'0' c && leb c b'9'
    then some (c - b'0')
    else if leb b'a' c && leb c b'f'
    then some (c - 87)
    else if leb b'A' c && leb c b'F'
    then some (c - 55)
    else none

-- `u8::from_str_radix` of two bytes, which takes a sign
unfoldable pub from_str_radix : ℕ → ℕ → Option ℕ
unfolding hex_value
from_str_radix high low = if high == b'+' then hex_value low else elim (hex_value high) [
  | none ↦ none
  | some h ↦ elim (hex_value low) [ none ↦ none | some l ↦ some (16 * h + l) ]
]

-- A byte of UTF-8 that starts no character
abbrev continues : ℕ → Bool
continues b = leb 128 b && ltb b 192

abbrev splits_char : List ℕ → Bool
splits_char [] = false
splits_char (b ∷ _) = continues b

unfoldable pub decode_bytes : List ℕ → List ℕ → Decoded
unfolding from_str_radix
decode_bytes out [] = seed out
decode_bytes out (high ∷ []) = panics
decode_bytes out (high ∷ (low ∷ rest)) =
    if splits_char rest then panics else elim (from_str_radix high low) [
      | none ↦ not_hex
      | some b ↦ decode_bytes (out ++ b ∷ []) rest
    ]

-- The argument is the text's bytes.
unfoldable pub decode_hex_32 : List ℕ → Decoded
unfolding decode_bytes
decode_hex_32 s = if length s == 64 then decode_bytes [] s else not_hex

-- The two variables of the environment.
pub record KeyEnv : Type 0 where
  pub signing_key : Option (List ℕ)
  pub allow_dev_attestation : Option Text

-- The process starts with a key or without; or it stops.
pub data Loaded : Type 0 where
  key : List ℕ → Loaded
  off : Loaded
  stops : Loaded

abbrev from_seed : Decoded → Loaded
from_seed (seed bytes) = key bytes
from_seed not_hex = stops
from_seed panics = stops

unfoldable pub signing_key_from_env : KeyEnv → Loaded
unfolding decode_hex_32
signing_key_from_env env = elim env.signing_key [
  | some hex ↦ from_seed (decode_hex_32 hex)
  | none ↦ elim env.allow_dev_attestation [ none ↦ off | some _ ↦ key (replicate 32 42) ]
]

-- The first draws of the generator.
unfoldable pub draws : ℕ → (ℕ → ℕ) → List ℕ
draws zero rng = []
draws (suc n) rng = rng 0 ∷ draws n (λ i. rng (i + 1))

module _ (ed : Ed25519) where
  unfoldable pub mint_batch : ℕ → (ℕ → ℕ) → ℕ → List AttestationToken
  unfolding sign draws
  mint_batch now rng signing_key =
      let expires_at = pos (now + token_ttl_secs) in
      map (λ nonce. sign ed signing_key nonce expires_at) (draws batch_size rng)
