-- ===== src/Proto/Envelope/Padding.antt =====
-- The padding of proto/src/envelope.rs.
use rosette.Prelude.{
  ℕ, ◌-◌, ◌≤◌, ◌<◌, List, [], ◌∷◌, ◌++◌, none, some, ◌≡◌, arith, length, replicate, contains, true,
  length-append, length-replicate, Option-cases, ◌⊎◌, inl, inr,
}
use rosette.Proto.Envelope.{padded_bucket_for, padding_buckets, pad}

padded_bucket_for-eq-none : (len : ℕ) → padded_bucket_for len ≡ none → 65536 < len
unfolding padded_bucket_for
padded_bucket_for-eq-none len e = ground arith

-- A bucket that is chosen for a length is one of the list, holds the length, and is the smallest of
-- the list that does.
pub padded_bucket_for_least :
    (len b c : ℕ)
    → padded_bucket_for len ≡ some b
    → contains c padding_buckets ≡ true
    → len ≤ c
    → (contains b padding_buckets ≡ true) × (len ≤ b) × (b ≤ c)
unfolding padded_bucket_for
padded_bucket_for_least len b c e m h = ground arith

padded_bucket_for-holds : (len b : ℕ) → padded_bucket_for len ≡ some b → len ≤ b
unfolding padded_bucket_for
padded_bucket_for-holds len b e = ground arith

-- The buckets of 1, 4, 16, 32 and 64 KiB, in bytes.
abbrev pub bucket_sizes : List ℕ
bucket_sizes = 1024 ∷ 4096 ∷ 16384 ∷ 32768 ∷ 65536 ∷ []

padded_bucket_for-sizes :
    (len b : ℕ) → padded_bucket_for len ≡ some b → (contains b bucket_sizes ≡ true) × (len ≤ 65536)
unfolding padded_bucket_for
padded_bucket_for-sizes len b e = (ground arith, ground arith)

padded_bucket_for-smallest :
    (len b : ℕ)
    → padded_bucket_for len ≡ some b
    → (c : ℕ) → contains c bucket_sizes ≡ true
    → len ≤ c
    → b ≤ c
padded_bucket_for-smallest len b e c m h = (padded_bucket_for_least len b c e m h).2

-- Padding fails exactly on messages over 65536 bytes. A message that is padded goes to the smallest of
-- the sizes 1024, 4096, 16384, 32768 and 65536 that holds it: the result has that length, begins with the
-- bytes of the message, and goes on with zeros alone.
pub pad_lem :
    (bytes : List ℕ)
    → ((pad bytes ≡ none) × (65536 < length bytes))
      ⊎ ((b : ℕ) × (length bytes ≤ 65536)
          × (contains b bucket_sizes ≡ true)
          × ((c : ℕ) → contains c bucket_sizes ≡ true → length bytes ≤ c → b ≤ c)
          × (pad bytes ≡ some (bytes ++ replicate (b - length bytes) 0))
          × (length (bytes ++ replicate (b - length bytes) 0) ≡ b))
unfolding pad
pad_lem bytes = elim (Option-cases (padded_bucket_for (length bytes))) [
  | inl e ↦ inl (rw (e, pad), padded_bucket_for-eq-none (length bytes) e)
  | inr (b, e) ↦
      let (listed, fits) = padded_bucket_for-sizes (length bytes) b e in
      inr (
        b,
        fits,
        listed,
        padded_bucket_for-smallest (length bytes) b e,
        rw (e, pad),
        omega (
          arith,
          length-append bytes (replicate (b - length bytes) 0),
          length-replicate {A = ℕ} (b - length bytes) 0,
          padded_bucket_for-holds (length bytes) b e,
        ),
      )
]
