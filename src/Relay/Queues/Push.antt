-- ===== src/Relay/Queues/Push.antt =====
-- `push_and_notify` of relay/src/state.rs.
use rosette.Prelude.{ℕ, ◌+◌, ◌%◌, ◌^◌, [], ◌∷◌, ◌++◌, not, none, some, map, retain, length}
use rosette.Prelude.Map.{lookup, insert}
use rosette.Proto.Envelope.{Envelope}
use rosette.Relay.State.{Inner, mailbox, group_inbox, Env}

-- The bytes for which an envelope counts.
abbrev pub size : Envelope → ℕ
size envelope = length envelope.padded_ciphertext

-- The first half: a mailbox stores the envelope.
unfoldable pub store : ℕ → ℕ → Envelope → Inner → Inner
store queue_id message_id envelope s = elim (lookup queue_id s.queues) [
  | none ↦ s
  | some entry ↦ elim entry.kind [
    | mailbox pending ↦ record s {
      queues =
          insert queue_id (record entry { kind = mailbox (pending ++ (message_id, envelope) ∷ []) })
            s.queues;
      storage_bytes_used = (s.storage_bytes_used + size envelope) % 2 ^ 64;
    }
    | group_inbox _ _ ↦ s
  ]
]

-- The second half: the push goes to the subscribers whose channel is open; the others are dropped.
unfoldable pub notify : Env → ℕ → ℕ → Envelope → Inner → Inner
notify env queue_id message_id envelope s = elim (lookup queue_id s.subscribers) [
  | none ↦ s
  | some subs ↦
      let open_subs = retain (λ tx. not (env.closed tx)) subs in
      record s {
        subscribers = insert queue_id open_subs s.subscribers;
        pushed = s.pushed ++ map (λ tx. (tx, (queue_id, message_id, envelope))) open_subs;
      }
]

unfoldable pub push_and_notify : Env → ℕ → ℕ → Envelope → Inner → Inner
push_and_notify env queue_id message_id envelope s =
    notify env queue_id message_id envelope (store queue_id message_id envelope s)
