-- ===== src/Proto/Pow.antt =====
-- proto/src/pow.rs: proof of work. SHA-256 is a parameter.
pub mod Solve
use rosette.Prelude.{
  ℕ, zero, suc, ◌+◌, ◌%◌, ◌^◌, List, [], ◌∷◌, ◌++◌, Bool, true, false, Option, none, some, ltb, leb,
  ◌==◌, if◌then◌else◌,
}
use rosette.Prelude.Bytes.{be_bytes, le_bytes}

pub record PowChallenge : Type 0 where
  pub challenge : ℕ
  pub difficulty : ℕ

pub record PowSolution : Type 0 where
  pub challenge : ℕ
  pub nonce : ℕ

-- `u8::leading_zeros`
unfoldable pub leading_zeros : ℕ → ℕ
leading_zeros b =
    if ltb b 1
    then 8
    else if ltb b 2
    then 7
    else if ltb b 4
    then 6
    else if ltb b 8
    then 5
    else if ltb b 16
    then 4
    else if ltb b 32
    then 3
    else if ltb b 64
    then 2
    else if ltb b 128
    then 1
    else 0

-- The loop of `leading_zero_bits` from a given `count`, which is a `u8`.
unfoldable pub count_zero_bits : ℕ → List ℕ → ℕ
count_zero_bits count [] = count
count_zero_bits count (byte ∷ bytes) =
    let rest = count_zero_bits ((count + 8) % 2 ^ 8) bytes in
    if byte == 0 then rest else (count + leading_zeros byte) % 2 ^ 8

unfoldable pub leading_zero_bits : List ℕ → ℕ
unfolding count_zero_bits leading_zeros
leading_zero_bits bytes = count_zero_bits 0 bytes

module _ (sha256 : List ℕ → List ℕ) where
  unfoldable pub verify : PowChallenge → PowSolution → Bool
  verify c solution =
      if solution.challenge == c.challenge
      then leb c.difficulty
          (leading_zero_bits (sha256 (be_bytes 32 c.challenge ++ le_bytes 8 solution.nonce)))
      else false

  -- The loop of `solve` from a nonce; `none` means that the fuel ran out.
  unfoldable pub solve_from : ℕ → PowChallenge → ℕ → Option PowSolution
  solve_from zero c nonce = none
  solve_from (suc fuel) c nonce =
      elim (verify c (record { challenge = c.challenge; nonce = nonce })) [
        | true ↦ some (record { challenge = c.challenge; nonce = nonce })
        | false ↦ solve_from fuel c ((nonce + 1) % 2 ^ 64)
      ]

  unfoldable pub solve : ℕ → PowChallenge → Option PowSolution
  unfolding solve_from
  solve fuel c = solve_from fuel c 0
