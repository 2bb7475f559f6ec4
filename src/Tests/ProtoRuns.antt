-- ===== src/Tests/ProtoRuns.antt =====
-- The theorems about proto/ at concrete inputs.
use rosette.Prelude.{
  ℕ, ◌-◌, ◌≤◌, ◌<◌, List, [], ◌∷◌, ◌++◌, none, some, ◌≡◌, refl, ◌⊎◌, inr, arith, length, true,
  contains, replicate, sum_by,
}
use rosette.Prelude.Bytes.{le_value, be_bytes, le_bytes}
use rosette.Proto.Codec.{Codec}
use rosette.Proto.Pow.{
  PowChallenge, verify, solve, leading_zero_bits, count_zero_bits, leading_zeros,
}
use rosette.Proto.Pow.Solve.{IsFirst, solution_at, solve_least}
use rosette.Proto.Attestation.{VerifiesSigned}
use rosette.Proto.Link as Link
use rosette.Proto.Link.{ContactLink, Endpoint, link_version_v1, to_bytes, from_bytes}
use rosette.Proto.Link.RoundTrip.{IsValid, from_bytes-IsValid}
use rosette.Proto.Envelope.{pad}
use rosette.Proto.Envelope.Padding.{bucket_sizes, pad_lem}
use rosette.Proto.Framing.{read_exact, frame_ceiling, write_frame, read_body, read_frame}
use rosette.Proto.Framing.RoundTrip.{read_frame-write_frame, read_frame_bounded}
use rosette.Tests.Fixture.{toy_ed}

-- A digest of one byte: 16 less the sum of the bytes.
abbrev checksum : List ℕ → List ℕ
checksum bytes = (16 - sum_by (λ b. b) bytes) ∷ []

abbrev easy : PowChallenge
easy = record { challenge = 5; difficulty = 5 }

five_solves : verify checksum easy (solution_at checksum easy 5) ≡ true
unfolding verify leading_zero_bits count_zero_bits leading_zeros be_bytes le_bytes
five_solves = refl

solve_least_example :
    (m : ℕ) × (m ≤ 5)
    × IsFirst checksum easy 0 m
    × (solve checksum 9 easy ≡ some (solution_at checksum easy m))
solve_least_example = solve_least checksum easy 9 5 (omega arith) (omega arith) five_solves

abbrev nonce : ℕ
nonce = 7

toy_ed-VerifiesSigned : VerifiesSigned toy_ed
toy_ed-VerifiesSigned = record {
  parsed = λ sk msg. sk;
  from_slice-sign = λ sk msg. refl;
  verify-sign = λ sk msg. ground arith;
}

abbrev endpoint : Endpoint
endpoint = record {
  relay_addr = "relay.example:4433";
  relay_fingerprint = 1;
  queue_id = 2;
  send_key = 3;
}

abbrev link : ContactLink
link = record { version = 1; key_package = 9 ∷ []; endpoints = endpoint ∷ [] }

-- A codec of key packages, for links to the one endpoint.
abbrev keys_only : Codec ContactLink
keys_only = record {
  encode = λ l. l.key_package;
  decode = λ bytes. inr (record { version = 1; key_package = bytes; endpoints = endpoint ∷ [] });
}

from_bytes-IsValid_example : IsValid link
from_bytes-IsValid_example =
    from_bytes-IsValid keys_only (9 ∷ []) link (unfold from_bytes in unfold Link.validate in refl)

abbrev two_bytes : List ℕ
two_bytes = 1 ∷ 2 ∷ []

pad_lem_example :
    ((pad two_bytes ≡ none) × (65536 < length two_bytes))
    ⊎ ((b : ℕ) × (length two_bytes ≤ 65536)
        × (contains b bucket_sizes ≡ true)
        × ((c : ℕ) → contains c bucket_sizes ≡ true → length two_bytes ≤ c → b ≤ c)
        × (pad two_bytes ≡ some (two_bytes ++ replicate (b - length two_bytes) 0))
        × (length (two_bytes ++ replicate (b - length two_bytes) 0) ≡ b))
pad_lem_example = pad_lem two_bytes

-- A codec of lists of bytes, which are their own encoding.
abbrev plain : Codec (List ℕ)
plain = record { encode = λ bytes. bytes; decode = λ bytes. inr bytes }

read_frame-write_frame_example :
    read_frame plain (write_frame plain two_bytes ++ two_bytes) ≡ inr (two_bytes, two_bytes)
read_frame-write_frame_example = read_frame-write_frame plain two_bytes two_bytes refl (omega arith)

one_frame : read_frame plain (2 ∷ 0 ∷ 0 ∷ 0 ∷ 1 ∷ 2 ∷ 9 ∷ []) ≡ inr (two_bytes, 9 ∷ [])
unfolding read_frame read_body read_exact le_value
one_frame = refl

read_frame_bounded_example :
    (head : List ℕ) × (body : List ℕ) × ((2 ∷ 0 ∷ 0 ∷ 0 ∷ 1 ∷ 2 ∷ 9 ∷ [])
      ≡ head ++ (body ++ 9 ∷ []))
    × (length head ≡ 4)
    × (length body ≡ le_value head)
    × (length body ≤ frame_ceiling)
    × (plain.decode body ≡ inr two_bytes)
read_frame_bounded_example =
    read_frame_bounded plain (2 ∷ 0 ∷ 0 ∷ 0 ∷ 1 ∷ 2 ∷ 9 ∷ []) (9 ∷ []) two_bytes one_frame
