-- ===== src/Relay/Queues/Create/Created.antt =====
-- What a creation has passed when it succeeds, and what it adds.
use rosette.Prelude.{
  ℕ, List, [], ◌∷◌, Option, none, some, ◌≡◌, arith, subst, Option-cases, inl, inr,
}
use rosette.Prelude.Map.{Map, lookup, has_key-lookup}
use rosette.Proto.Error.{Result, ok, err, RejectionCode}
use rosette.Proto.Pow.{PowSolution}
use rosette.Proto.Attestation.{AttestationToken}
use rosette.Relay.State.{Inner, QueueEntry, Primitives, Env}
use rosette.Relay.Gate.{consume_attestation}
use rosette.Relay.Gate.Frame.{KeepsQueues, consume_attestation-KeepsQueues, consume_pow-KeepsQueues}
use rosette.Relay.Queues.Create.{fresh_queue_id, admit, with_fresh_id}

-- The id that is drawn is not taken.
pub fresh_queue_id-fresh :
    (queues : Map QueueEntry) (draws : List ℕ) (id : ℕ)
    → fresh_queue_id queues draws ≡ some id
    → lookup id queues ≡ none
unfolding fresh_queue_id
fresh_queue_id-fresh queues [] id h = cc
fresh_queue_id-fresh queues (d ∷ draws) id h =
    ground (arith, fresh_queue_id-fresh queues draws id, has_key-lookup d queues)

pub admit-KeepsQueues :
    (p : Primitives) (env : Env) (solution : PowSolution) (token : Option AttestationToken)
    (s : Inner)
    → KeepsQueues s (admit p env solution token s).0
unfolding admit
admit-KeepsQueues p env solution token s =
    let a = consume_attestation-KeepsQueues p env token s in
    let b = consume_pow-KeepsQueues p env solution (consume_attestation p env token s).0 in
    ground (
      arith, a.queues, a.storage, a.subscribers, a.pushed, a.db, b.queues, b.storage, b.subscribers,
      b.pushed, b.db,
    )

-- The two ways in which a creation ends: refused, with the queues as they were, or with a queue
-- added under an id that was free.
pub data Outcome (env : Env) (add : ℕ → Inner → Inner) (s s' : Inner) (res : Result (ℕ × ℕ))
    : Type 0 where
  refused : (code : RejectionCode) → res ≡ err code → KeepsQueues s s' → Outcome env add s s' res
  added :
      (t : Inner) (id : ℕ)
      → KeepsQueues s t
      → lookup id t.queues ≡ none
      → s' ≡ add id t
      → res ≡ ok (id, env.send_key_draw)
      → Outcome env add s s' res

module _ (env : Env) (add : ℕ → Inner → Inner) (s s' : Inner) (res : Result (ℕ × ℕ)) where
  pub with_fresh_id-Outcome :
      (r : Inner × Result (Unit {0}))
      → KeepsQueues s r.0
      → with_fresh_id env add r ≡ some (s', res)
      → Outcome env add s s' res
  with_fresh_id-Outcome (t, err code) k h =
      refused code (ground arith) (let e : t ≡ s' = ground arith in subst (KeepsQueues s) e k)
  with_fresh_id-Outcome (t, ok done) k h =
      elim (Option-cases (fresh_queue_id t.queues env.id_draws)) [
        | inl e ↦ absurd (ground arith)
        | inr (id, e) ↦
            added t id k (fresh_queue_id-fresh t.queues env.id_draws id e) (ground arith)
              (ground arith)
      ]
