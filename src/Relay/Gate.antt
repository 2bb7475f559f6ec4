-- ===== src/Relay/Gate.antt =====
-- What guards the creation of queues: proof-of-work challenges and attestation tokens.
pub mod Frame
use rosette.Prelude.{
  ℕ, zero, suc, List, [], ◌∷◌, ◌++◌, Bool, true, false, not, Option, none, some, leb, if◌then◌else◌,
  length, ◌||◌,
}
use rosette.Prelude.Int.{ltb_ℤ}
use rosette.Prelude.Map.{Map, lookup, insert, erase, retain_values, has_key}
use rosette.Proto.Limits.{queue_creation_pow_difficulty, max_outstanding_pow_challenges}
use rosette.Proto.Error.{Result, ok, err, invalid_proof_of_work, invalid_attestation}
use rosette.Proto.Pow.{PowChallenge, PowSolution, verify}
use rosette.Proto.Attestation.{AttestationToken, signature_valid, is_expired}
use rosette.Relay.State.{Inner, QueueEntry, Primitives, Env}

-- The loop `while challenge_order.len() >= MAX`, which takes an entry off `order` in each round.
unfoldable pub evict : List ℕ → Inner → Inner
evict [] s = s
evict (oldest ∷ rest) s =
    let shorter = evict rest (record s {
      outstanding_challenges = erase oldest s.outstanding_challenges;
      challenge_order = rest;
    }) in
    if leb max_outstanding_pow_challenges (length (oldest ∷ rest)) then shorter else s

unfoldable pub evict_oldest : Inner → Inner
unfolding evict
evict_oldest s = evict s.challenge_order s

unfoldable pub issue_pow_challenge : Env → Inner → Inner × PowChallenge
issue_pow_challenge env s =
    let c : PowChallenge = record {
      challenge = env.challenge_draw;
      difficulty = queue_creation_pow_difficulty;
    } in
    let s' = evict_oldest s in
    (
      record s' {
        outstanding_challenges = insert c.challenge c.difficulty s'.outstanding_challenges;
        challenge_order = s'.challenge_order ++ c.challenge ∷ [];
      },
      c,
    )

unfoldable pub set_attestation_key : Option ℕ → Inner → Inner
set_attestation_key key s = record s { attestation_key = key }

-- The part of `consume_attestation` after the token has passed the checks that keep no state.
unfoldable pub spend : Env → AttestationToken → Inner → Inner × Result (Unit {0})
spend env token s =
    let live = retain_values (λ exp. ltb_ℤ env.unix exp) s.spent_tokens in
    if has_key token.nonce live
    then (record s { spent_tokens = live }, err invalid_attestation)
    else (record s { spent_tokens = insert token.nonce token.expires_at live }, ok tt)

module _ (p : Primitives) where
  unfoldable pub check_token : Env → Option AttestationToken → ℕ → Inner → Inner × Result (Unit {0})
  unfolding spend
  check_token env none key s = (s, err invalid_attestation)
  check_token env (some token) key s =
      if is_expired token env.unix || not (signature_valid p.ed token key)
      then (s, err invalid_attestation)
      else spend env token s

  unfoldable pub consume_attestation :
      Env → Option AttestationToken → Inner → Inner × Result (Unit {0})
  unfolding check_token
  consume_attestation env token s = elim s.attestation_key [
    | none ↦ (s, ok tt)
    | some key ↦ check_token env token key s
  ]

  unfoldable pub consume_pow : PowSolution → Inner → Inner × Result (Unit {0})
  consume_pow solution s = elim (lookup solution.challenge s.outstanding_challenges) [
    | none ↦ (s, err invalid_proof_of_work)
    | some difficulty ↦ (
      record s { outstanding_challenges = erase solution.challenge s.outstanding_challenges },
      if verify p.sha256 (record { challenge = solution.challenge; difficulty = difficulty })
            solution
          then ok tt
          else err invalid_proof_of_work,
    )
  ]
