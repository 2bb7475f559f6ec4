-- ===== src/Relay/Admission/Tokens.antt =====
-- Attestation tokens over the histories of the relay.
use rosette.Prelude.{ℕ, List, Option, none, some, ◌≡◌, refl, arith, true, inl, inr, ◌∙◌, ap}
use rosette.Prelude.Int.{leb_ℤ, pos}
use rosette.Prelude.Map.{lookup}
use rosette.Proto.Error.{Result-cases, ok, err, invalid_attestation}
use rosette.Proto.Pow.{PowSolution}
use rosette.Proto.Attestation.{AttestationToken}
use rosette.Proto.Wire.{ClientMessage, create_mailbox, create_group_inbox, error, queue_created}
use rosette.Relay.State.{Inner, Primitives, Env}
use rosette.Relay.Gate.{consume_attestation}
use rosette.Relay.Queues.Create
use rosette.Relay.Queues.Create.{admit, with_fresh_id, add_mailbox, add_group_inbox}
use rosette.Relay.Handle.{handle, created}
use rosette.Relay.Handle.Gate.{
  KeepsGate, created-KeepsGate, add_mailbox-KeepsGate, add_group_inbox-KeepsGate,
}
use rosette.Relay.Handle.History.{History, Event}
use rosette.Relay.Admission.Spent.{
  latest, IsMonotone, IsSpent, consume-spends, consume_refuses, spent_tokens-admit, History-IsSpent,
}

-- The token of a request for a queue.
abbrev pub token_of : ClientMessage → Option AttestationToken
token_of (create_mailbox solution token) = token
token_of (create_group_inbox solution epoch roster token) = token
token_of _ = none

module _ (p : Primitives) (env : Env) (token : AttestationToken) where
  -- A request with a token that is refused is answered so.
  refused_reply :
      (msg : ClientMessage) (tx : Option ℕ) (s : Inner)
      → token_of msg ≡ some token
      → (consume_attestation p env (some token) s).1 ≡ err invalid_attestation
      → handle p env msg tx s
        ≡ some ((consume_attestation p env (some token) s).0, error invalid_attestation)
  unfolding handle Create.create_mailbox Create.create_group_inbox admit
  refused_reply (create_mailbox solution t) tx s e h = rw e (ground arith)
  refused_reply (create_group_inbox solution epoch roster t) tx s e h = rw e (ground arith)
  refused_reply _ tx s e h = cc

  granted_by :
      (add : ℕ → Inner → Inner)
      → ((id : ℕ) (s : Inner) → KeepsGate s (add id s))
      → (solution : PowSolution) (s u : Inner) (id key : ℕ)
      → created (with_fresh_id env add (admit p env solution (some token) s))
        ≡ some (u, queue_created id key)
      → ((consume_attestation p env (some token) s).1 ≡ ok tt)
        × (u.spent_tokens ≡ (consume_attestation p env (some token) s).0.spent_tokens)
  unfolding admit
  granted_by add keeps solution s u id key h =
      elim (Result-cases (consume_attestation p env (some token) s).1) [
        | inl (done, r) ↦ (
          r,
          (created-KeepsGate p env add keeps (admit p env solution (some token) s) u
                (queue_created id key) h).spent
              ∙ spent_tokens-admit 0 (pos 0) p env solution (some token) s,
        )
        | inr (code, r) ↦ absurd (ground arith)
      ]

  -- A request with a token that is granted has passed the token.
  granted :
      (msg : ClientMessage) (tx : Option ℕ) (s u : Inner) (id key : ℕ)
      → token_of msg ≡ some token
      → handle p env msg tx s ≡ some (u, queue_created id key)
      → ((consume_attestation p env (some token) s).1 ≡ ok tt)
        × (u.spent_tokens ≡ (consume_attestation p env (some token) s).0.spent_tokens)
  unfolding handle Create.create_mailbox Create.create_group_inbox
  granted (create_mailbox solution t) tx s u id key e h =
      granted_by (add_mailbox env) (add_mailbox-KeepsGate p env) solution s u id key (rw e at h)
  granted (create_group_inbox solution epoch roster t) tx s u id key e h =
      granted_by (λ id. add_group_inbox env id epoch roster)
        (add_group_inbox-KeepsGate p env epoch roster) solution s u id key (rw e at h)
  granted _ tx s u id key e h = cc

-- On a relay with an attestation key, a token that was good for a queue is never good for another:
-- after any history in which the wall clock has not gone back, and whatever key is set by then, a
-- request for a queue with the same token is answered `InvalidAttestation`.
pub token_single_use :
    (p : Primitives) (token : AttestationToken) (first second : Event) (s u t : Inner)
    {events : List Event} (id send_key key key' : ℕ)
    → token_of first.message ≡ some token
    → s.attestation_key ≡ some key
    → handle p first.env first.message first.push_tx s ≡ some (u, queue_created id send_key)
    → IsMonotone first.env.unix events
    → History p u events t
    → token_of second.message ≡ some token
    → t.attestation_key ≡ some key'
    → leb_ℤ (latest first.env.unix events) second.env.unix ≡ true
    → (t' : Inner) × (handle p second.env second.message second.push_tx t
        ≡ some (t', error invalid_attestation))
token_single_use p token first second s u t {events} id send_key key key' e on run m past e' on'
      le =
    let (good, same) =
      granted p first.env token first.message first.push_tx s u id send_key e run in
    let n = token.nonce in
    let x = token.expires_at in
    let spent : IsSpent n x first.env.unix u = λ alive.
      ap (lookup n) same ∙ consume-spends n x p first.env token key s on refl refl good alive in
    let bad =
      consume_refuses n x p second.env (latest first.env.unix events) token key' t on' refl refl le
        (History-IsSpent n x p first.env.unix m spent past) in
    (
      (consume_attestation p second.env (some token) t).0,
      refused_reply p second.env token second.message second.push_tx t e' bad,
    )
