-- ===== src/Relay/Open.antt =====
-- `RelayState::open` of relay/src/state.rs, on the content of the three tables. The connection is not
-- modelled, nor are errors of SQLite other than that of an epoch that cannot be read; the rows of `queues` come in any order, and those of `roster` in
-- the order of `ord`, of which only that within one inbox matters.
pub mod Loaded
pub mod Loops
pub mod Overflowed
pub mod Restored
use rosette.Prelude.{
  ℕ, ◌+◌, leb, if◌then◌else◌, ◌%◌, ◌^◌, List, [], ◌∷◌, ◌++◌, Option, none, some, inl, inr,
}
use rosette.Prelude.Map.{Map, lookup, insert}
use rosette.Proto.Codec.{Codec}
use rosette.Proto.Envelope.{Envelope}
use rosette.Relay.State.{
  Inner, QueueEntry, QueueKind, QueueRow, RosterRow, PendingRow, Db, mailbox, group_inbox, new,
  EpochColumn, null, integer, real,
}
use rosette.Relay.Queues.Push.{size}

abbrev pub kind_of : Option ℕ → QueueKind
kind_of none = mailbox []
kind_of (some epoch) = group_inbox epoch []

-- `row.get::<Option<u64>>`; `none` is its error.
abbrev pub read_epoch : EpochColumn → Option (Option ℕ)
read_epoch null = some none
read_epoch (integer epoch) = if leb (2 ^ 63) epoch then none else some (some epoch)
read_epoch real = none

abbrev pub entry_of : ℕ → ℕ → Option ℕ → QueueEntry
entry_of now send_key epoch = record {
  send_key = send_key;
  kind = kind_of epoch;
  sent_this_minute = 0;
  window_started = now;
}

-- A row that is read, in front of the others.
abbrev pub add_queue :
    ℕ → ℕ → ℕ → Option (Option ℕ) → Option (Map QueueEntry) → Option (Map QueueEntry)
add_queue now id send_key none others = none
add_queue now id send_key (some epoch) none = none
add_queue now id send_key (some epoch) (some queues) =
    some (insert id (entry_of now send_key epoch) queues)

-- `none`: the epoch of a row is not an `Option<u64>`.
unfoldable pub load_queues : ℕ → Map QueueRow → Option (Map QueueEntry)
load_queues now [] = some []
load_queues now ((id, row) ∷ rows) =
    add_queue now id row.send_key (read_epoch row.epoch) (load_queues now rows)

-- `fan_out_to.push(member)`, for a group inbox
unfoldable pub add_member : RosterRow → Map QueueEntry → Map QueueEntry
add_member row queues = elim (lookup row.inbox_id queues) [
  | none ↦ queues
  | some entry ↦ elim entry.kind [
    | mailbox _ ↦ queues
    | group_inbox epoch fan_out_to ↦
        insert row.inbox_id
          (record entry { kind = group_inbox epoch (fan_out_to ++ row.member_queue ∷ []) }) queues
  ]
]

unfoldable pub load_roster : List RosterRow → Map QueueEntry → Map QueueEntry
load_roster [] queues = queues
load_roster (row ∷ rows) queues = load_roster rows (add_member row queues)

-- `pending.push_back((envelope.message_id, envelope))`, for a mailbox
unfoldable pub add_pending : ℕ → Envelope → Map QueueEntry → Map QueueEntry
add_pending queue_id envelope queues = elim (lookup queue_id queues) [
  | none ↦ queues
  | some entry ↦ elim entry.kind [
    | group_inbox _ _ ↦ queues
    | mailbox pending ↦
        insert queue_id
          (record entry { kind = mailbox (pending ++ (envelope.message_id, envelope) ∷ []) }) queues
  ]
]

-- `none`: a stored envelope is corrupt.
unfoldable pub load_pending :
    Codec Envelope → List PendingRow → ℕ → Map QueueEntry → Option (ℕ × Map QueueEntry)
load_pending codec [] used queues = some (used, queues)
load_pending codec (row ∷ rows) used queues = elim (codec.decode row.envelope) [
  | inl error ↦ none
  | inr envelope ↦
      load_pending codec rows ((used + size envelope) % 2 ^ 64)
        (add_pending row.queue_id envelope queues)
]

abbrev loaded : Db → Option (ℕ × Map QueueEntry) → Option Inner
loaded db none = none
loaded db (some (used, queues)) =
    some (record new { queues = queues; storage_bytes_used = used; db = some db })

unfoldable pub open_state : Codec Envelope → ℕ → Db → Option Inner
open_state codec now db = elim (load_queues now db.queues) [
  | none ↦ none
  | some queues ↦ loaded db (load_pending codec db.pending 0 (load_roster db.roster queues))
]
