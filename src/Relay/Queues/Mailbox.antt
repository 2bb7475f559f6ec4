-- ===== src/Relay/Queues/Mailbox.antt =====
-- `send_to_mailbox` of relay/src/state.rs.
pub mod Accepted
use rosette.Prelude.{ℕ, List, Bool, Option, none, some, ltb, leb, if◌then◌else◌, length}
use rosette.Prelude.Map.{lookup, insert}
use rosette.Proto.Limits.{max_message_size, max_queue_depth}
use rosette.Proto.Error.{
  Result, ok, err, message_too_large, queue_not_found, unauthorized, queue_full,
  storage_bound_exceeded,
}
use rosette.Proto.Envelope.{Envelope}
use rosette.Proto.Auth.{verify_tag}
use rosette.Relay.State.{Inner, QueueEntry, mailbox, group_inbox, Primitives, Env}
use rosette.Relay.Limits.{check_and_bump_rate_limit, would_exceed_storage_bound}
use rosette.Relay.Queues.Tables.{with_db, insert_pending}
use rosette.Relay.Queues.Push.{size, push_and_notify}

module _ (p : Primitives) where
  -- The checks that read the queue: its kind, the tag, its depth.
  unfoldable pub check_mailbox : ℕ → ℕ → Envelope → QueueEntry → Result (Unit {0})
  check_mailbox queue_id auth_tag envelope entry = elim entry.kind [
    | group_inbox _ _ ↦ err queue_not_found
    | mailbox pending ↦
        if verify_tag p.hmac p.codec entry.send_key queue_id envelope auth_tag
        then (if leb max_queue_depth (length pending) then err queue_full else ok tt)
        else err unauthorized
  ]

  -- From the storage check on, with the send counted against the rate limit.
  unfoldable pub store_in_mailbox : Env → ℕ → Envelope → Inner → Inner × Result (Unit {0})
  store_in_mailbox env queue_id envelope s =
      if would_exceed_storage_bound s (size envelope) 1 then (s, err storage_bound_exceeded) else (
        push_and_notify env queue_id envelope.message_id envelope
            (with_db (insert_pending p.codec queue_id envelope) s),
        ok tt,
      )

  -- From the rate limit on.
  unfoldable pub send_limited : Env → ℕ → Envelope → QueueEntry → Inner → Inner × Result (Unit {0})
  send_limited env queue_id envelope entry s =
      let (entry', limited) = check_and_bump_rate_limit env.instant entry in
      let s' = record s { queues = insert queue_id entry' s.queues } in
      elim limited [ err e ↦ (s', err e) | ok _ ↦ store_in_mailbox env queue_id envelope s' ]

  unfoldable pub send_to_mailbox : Env → ℕ → ℕ → Envelope → Inner → Inner × Result (Unit {0})
  send_to_mailbox env queue_id auth_tag envelope s =
      if ltb max_message_size (size envelope)
      then (s, err message_too_large)
      else elim (lookup queue_id s.queues) [
        | none ↦ (s, err queue_not_found)
        | some entry ↦ elim (check_mailbox queue_id auth_tag envelope entry) [
          | err e ↦ (s, err e)
          | ok _ ↦ send_limited env queue_id envelope entry s
        ]
      ]
