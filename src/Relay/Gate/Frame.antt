-- ===== src/Relay/Gate/Frame.antt =====
-- What the gate leaves alone: the queues, their storage, the subscribers, the database.
use rosette.Prelude.{ℕ, List, [], ◌∷◌, Option, none, some, ◌≡◌, refl, arith}
use rosette.Prelude.Map.{erase}
use rosette.Proto.Pow.{PowSolution}
use rosette.Proto.Attestation.{AttestationToken}
use rosette.Relay.State.{Inner, Primitives, Env}
use rosette.Relay.Gate.{evict, evict_oldest, issue_pow_challenge, consume_attestation, consume_pow}

pub record KeepsQueues (s s' : Inner) : Type 0 where
  pub queues : s'.queues ≡ s.queues
  pub storage : s'.storage_bytes_used ≡ s.storage_bytes_used
  pub subscribers : s'.subscribers ≡ s.subscribers
  pub pushed : s'.pushed ≡ s.pushed
  pub db : s'.db ≡ s.db

evict-KeepsQueues : (order : List ℕ) (s : Inner) → KeepsQueues s (evict order s)
unfolding evict
evict-KeepsQueues [] s = record {
  queues = refl;
  storage = refl;
  subscribers = refl;
  pushed = refl;
  db = refl;
}
evict-KeepsQueues (oldest ∷ rest) s =
    let ih = evict-KeepsQueues rest (record s {
      outstanding_challenges = erase oldest s.outstanding_challenges;
      challenge_order = rest;
    }) in
    ground (arith, ih.queues, ih.storage, ih.subscribers, ih.pushed, ih.db)

pub issue_pow_challenge-KeepsQueues :
    (env : Env) (s : Inner) → KeepsQueues s (issue_pow_challenge env s).0
unfolding issue_pow_challenge evict_oldest
issue_pow_challenge-KeepsQueues env s =
    let ev = evict-KeepsQueues s.challenge_order s in
    ground (arith, ev.queues, ev.storage, ev.subscribers, ev.pushed, ev.db)

module _ (p : Primitives) (env : Env) where
  pub consume_attestation-KeepsQueues :
      (token : Option AttestationToken) (s : Inner)
      → KeepsQueues s (consume_attestation p env token s).0
  unfolding consume_attestation
  consume_attestation-KeepsQueues none s = ground arith
  consume_attestation-KeepsQueues (some token) s = ground arith

  pub consume_pow-KeepsQueues :
      (solution : PowSolution) (s : Inner) → KeepsQueues s (consume_pow p solution s).0
  unfolding consume_pow
  consume_pow-KeepsQueues solution s = ground arith
