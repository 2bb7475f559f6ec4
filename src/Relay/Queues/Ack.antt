-- ===== src/Relay/Queues/Ack.antt =====
-- `ack` of relay/src/state.rs.
use rosette.Prelude.{
  ℕ, ◌+◌, ◌-◌, ◌%◌, ◌^◌, List, [], ◌∷◌, not, none, some, ◌==◌, if◌then◌else◌, retain,
}
use rosette.Prelude.Map.{lookup, insert}
use rosette.Relay.State.{Inner, Pending, mailbox, group_inbox}
use rosette.Relay.Queues.Tables.{with_db, delete_pending}
use rosette.Relay.Queues.Push.{size}

-- The sum that the closure of `retain` keeps, from a given `freed`.
unfoldable pub freed_bytes : ℕ → ℕ → List Pending → ℕ
freed_bytes message_id freed [] = freed
freed_bytes message_id freed ((mid, env) ∷ pending) =
    freed_bytes message_id (if mid == message_id then (freed + size env) % 2 ^ 64 else freed)
      pending

unfoldable pub unacked : ℕ → List Pending → List Pending
unacked message_id = retain (λ m. not (m.0 == message_id))

unfoldable pub ack : ℕ → ℕ → Inner → Inner
ack queue_id message_id s =
    let s' = with_db (delete_pending queue_id message_id) s in
    elim (lookup queue_id s'.queues) [
      | none ↦ s'
      | some entry ↦ elim entry.kind [
        | mailbox pending ↦ record s' {
          queues =
              insert queue_id (record entry { kind = mailbox (unacked message_id pending) })
                s'.queues;
          storage_bytes_used = s'.storage_bytes_used - freed_bytes message_id 0 pending;
        }
        | group_inbox _ _ ↦ s'
      ]
    ]
