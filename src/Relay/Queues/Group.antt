-- ===== src/Relay/Queues/Group.antt =====
-- `send_to_group_inbox` of relay/src/state.rs.
pub mod Accepted
use rosette.Prelude.{
  ℕ, ◌+◌, ◌%◌, ◌^◌, List, [], ◌∷◌, Bool, true, false, Option, none, some, ltb, ◌==◌, if◌then◌else◌,
  length, retain,
}
use rosette.Prelude.Map.{Map, lookup, insert}
use rosette.Proto.Limits.{max_message_size}
use rosette.Proto.Error.{
  Result, ok, err, message_too_large, group_inbox_not_found, unauthorized, epoch_conflict,
  storage_bound_exceeded,
}
use rosette.Proto.Envelope.{Envelope}
use rosette.Proto.Auth.{verify_tag}
use rosette.Proto.Wire.{GroupSendKind, commit, application}
use rosette.Proto.Codec.{Codec}
use rosette.Relay.State.{Inner, QueueEntry, Db, mailbox, group_inbox, Primitives, Env}
use rosette.Relay.Limits.{check_and_bump_rate_limit, would_exceed_storage_bound}
use rosette.Relay.Queues.Tables.{with_db, insert_pending, bump_epoch}
use rosette.Relay.Queues.Push.{size, push_and_notify}

-- The epoch test: only a commit has one.
abbrev pub epoch_matches : GroupSendKind → ℕ → Bool
epoch_matches (commit target) current = target == current
epoch_matches application current = true

-- `matches!(queues.get(member), Some(QueueEntry { kind: Mailbox, .. }))`
abbrev pub is_mailbox : Option QueueEntry → Bool
is_mailbox none = false
is_mailbox (some e) = elim e.kind [ mailbox _ ↦ true | group_inbox _ _ ↦ false ]

unfoldable pub stored_targets : Map QueueEntry → List ℕ → List ℕ
stored_targets queues = retain (λ member. is_mailbox (lookup member queues))

-- `*epoch += 1`, for a commit to a group inbox
unfoldable pub advance : GroupSendKind → QueueEntry → QueueEntry
advance application e = e
advance (commit _) e = elim e.kind [
  | mailbox _ ↦ e
  | group_inbox epoch fan_out_to ↦ record e { kind = group_inbox ((epoch + 1) % 2 ^ 64) fan_out_to }
]

unfoldable pub advance_epoch : ℕ → GroupSendKind → Inner → Inner
advance_epoch queue_id kind s = elim (lookup queue_id s.queues) [
  | none ↦ s
  | some e ↦ record s { queues = insert queue_id (advance kind e) s.queues }
]

unfoldable pub insert_pendings : Codec Envelope → List ℕ → Envelope → Db → Db
insert_pendings codec [] envelope db = db
insert_pendings codec (q ∷ qs) envelope db =
    insert_pendings codec qs envelope (insert_pending codec q envelope db)

-- The transaction: the epoch, and a row for each target.
unfoldable pub persist_group : Codec Envelope → ℕ → GroupSendKind → List ℕ → Envelope → Db → Db
persist_group codec queue_id (commit _) targets envelope db =
    insert_pendings codec targets envelope (bump_epoch queue_id db)
persist_group codec queue_id application targets envelope db =
    insert_pendings codec targets envelope db

-- `for member_queue in fan_out_to`
unfoldable pub fan_out : Env → List ℕ → Envelope → Inner → Inner
fan_out env [] envelope s = s
fan_out env (member ∷ members) envelope s =
    fan_out env members envelope (push_and_notify env member envelope.message_id envelope s)

module _ (p : Primitives) where
  -- The peek-only pass, which returns the roster.
  unfoldable pub check_group : ℕ → GroupSendKind → ℕ → Envelope → QueueEntry → Result (List ℕ)
  check_group queue_id kind auth_tag envelope entry =
      if verify_tag p.hmac p.codec entry.send_key queue_id envelope auth_tag
      then elim entry.kind [
        | mailbox _ ↦ err group_inbox_not_found
        | group_inbox epoch fan_out_to ↦
            if epoch_matches kind epoch then ok fan_out_to else err epoch_conflict
      ]
      else err unauthorized

  -- What follows the last check.
  unfoldable pub deliver_to_group : Env → ℕ → GroupSendKind → Envelope → List ℕ → Inner → Inner
  deliver_to_group env queue_id kind envelope roster s = fan_out env roster envelope (
      advance_epoch queue_id kind
        (with_db (persist_group p.codec queue_id kind (stored_targets s.queues roster) envelope) s))

  -- From the storage check on.
  unfoldable pub send_checked :
      Env → ℕ → GroupSendKind → Envelope → QueueEntry → List ℕ → Inner → Inner × Result (Unit {0})
  send_checked env queue_id kind envelope entry roster s =
      if would_exceed_storage_bound s (size envelope) (length roster)
      then (s, err storage_bound_exceeded)
      else (let (entry', limited) = check_and_bump_rate_limit env.instant entry in
          let s' = record s { queues = insert queue_id entry' s.queues } in
          elim limited [
            | err e ↦ (s', err e)
            | ok _ ↦ (deliver_to_group env queue_id kind envelope roster s', ok tt)
          ])

  unfoldable pub send_to_group_inbox :
      Env → ℕ → GroupSendKind → ℕ → Envelope → Inner → Inner × Result (Unit {0})
  send_to_group_inbox env queue_id kind auth_tag envelope s =
      if ltb max_message_size (size envelope)
      then (s, err message_too_large)
      else elim (lookup queue_id s.queues) [
        | none ↦ (s, err group_inbox_not_found)
        | some entry ↦ elim (check_group queue_id kind auth_tag envelope entry) [
          | err e ↦ (s, err e)
          | ok roster ↦ send_checked env queue_id kind envelope entry roster s
        ]
      ]
