-- ===== src/Proto/Wire.antt =====
-- proto/src/wire.rs: the messages between client and relay.
use rosette.Prelude.{ℕ, List, Option}
use rosette.Proto.Error.{RejectionCode}
use rosette.Proto.Envelope.{Envelope}
use rosette.Proto.Pow.{PowChallenge, PowSolution}
use rosette.Proto.Attestation.{AttestationToken}

pub data GroupSendKind : Type 0 where
  commit : ℕ → GroupSendKind
  application : GroupSendKind

pub data ClientMessage : Type 0 where
  -- queue_id, auth_tag, envelope
  send_to_mailbox : ℕ → ℕ → Envelope → ClientMessage
  -- queue_id, kind, auth_tag, envelope
  send_to_group_inbox : ℕ → GroupSendKind → ℕ → Envelope → ClientMessage
  subscribe : List ℕ → ClientMessage
  -- queue_id, message_id
  ack : ℕ → ℕ → ClientMessage
  request_pow_challenge : ClientMessage
  create_mailbox : PowSolution → Option AttestationToken → ClientMessage
  -- solution, initial_epoch, fan_out_to, attestation
  create_group_inbox : PowSolution → ℕ → List ℕ → Option AttestationToken → ClientMessage

pub data ServerMessage : Type 0 where
  ok : ServerMessage
  error : RejectionCode → ServerMessage
  pow_challenge : PowChallenge → ServerMessage
  -- queue_id, send_key
  queue_created : ℕ → ℕ → ServerMessage

-- What a client writes, and what the relay writes.
pub record ClientFrame : Type 0 where
  pub request_id : ℕ
  pub message : ClientMessage

pub data ServerFrame : Type 0 where
  -- request_id, message
  reply : ℕ → ServerMessage → ServerFrame
  -- queue_id, envelope
  push : ℕ → Envelope → ServerFrame
