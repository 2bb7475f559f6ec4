-- ===== src/Relay/Persist.antt =====
-- The tables of relay/src/state.rs beside the queues in memory: what the two have of each queue.
pub mod Rows
pub mod Mirror
pub mod Advance
pub mod Below
pub mod Calls
pub mod Kept
use rosette.Prelude.{
  ℕ, ◌%◌, ◌^◌, List, [], ◌∷◌, Option, none, some, ◌≡◌, map, All, ◌==◌, if◌then◌else◌,
}
use rosette.Prelude.Map.{Map, lookup}
use rosette.Proto.Codec.{Codec}
use rosette.Proto.Envelope.{Envelope}
use rosette.Relay.State.{
  Inner, QueueEntry, QueueKind, QueueRow, RosterRow, PendingRow, Db, Pending, mailbox, group_inbox,
  EpochColumn, null, integer, real,
}

abbrev pub epoch_of : QueueKind → Option ℕ
epoch_of (mailbox pending) = none
epoch_of (group_inbox epoch roster) = some epoch

abbrev pub roster_of : QueueKind → List ℕ
roster_of (mailbox pending) = []
roster_of (group_inbox epoch roster) = roster

abbrev pub messages_of : QueueKind → List Pending
messages_of (mailbox pending) = pending
messages_of (group_inbox epoch roster) = []

abbrev pub row_image : Option QueueRow → Option (ℕ × EpochColumn)
row_image none = none
row_image (some row) = some (row.send_key, row.epoch)

abbrev pub epoch_column : Option QueueRow → EpochColumn
epoch_column none = null
epoch_column (some row) = row.epoch

-- An epoch in memory as a column has it, of which a REAL tells no more than that there is one.
abbrev pub column_at : EpochColumn → Option ℕ → EpochColumn
column_at column none = null
column_at null (some epoch) = integer epoch
column_at (integer stored) (some epoch) = integer epoch
column_at real (some epoch) = real

abbrev pub entry_image : EpochColumn → Option QueueEntry → Option (ℕ × EpochColumn)
entry_image column none = none
entry_image column (some entry) = some (entry.send_key, column_at column (epoch_of entry.kind))

abbrev pub roster_at : Option QueueEntry → List ℕ
roster_at none = []
roster_at (some entry) = roster_of entry.kind

abbrev pub pending_at : Option QueueEntry → List Pending
pending_at none = []
pending_at (some entry) = messages_of entry.kind

unfoldable pub roster_rows : ℕ → List RosterRow → List ℕ
roster_rows q [] = []
roster_rows q (row ∷ rows) =
    let rest = roster_rows q rows in if row.inbox_id == q then row.member_queue ∷ rest else rest

unfoldable pub pending_rows : ℕ → List PendingRow → List (ℕ × List ℕ)
pending_rows q [] = []
pending_rows q (row ∷ rows) =
    let rest = pending_rows q rows in
    if row.queue_id == q then (row.message_id, row.envelope) ∷ rest else rest

abbrev pub encoded : Codec Envelope → Pending → ℕ × List ℕ
encoded codec (mid, envelope) = (mid, codec.encode envelope)

abbrev pub IsOwn : Pending → Type 0
IsOwn (mid, envelope) = mid ≡ envelope.message_id

-- The tables have at `q` what memory has there; a message stands under the id of its envelope.
pub record MirrorsAt (codec : Codec Envelope) (q : ℕ) (entry : Option QueueEntry) (db : Db)
    : Type 0 where
  pub row : row_image (lookup q db.queues) ≡ entry_image (epoch_column (lookup q db.queues)) entry
  pub roster : roster_rows q db.roster ≡ roster_at entry
  pub pending : pending_rows q db.pending ≡ map (encoded codec) (pending_at entry)
  pub own : All IsOwn (pending_at entry)

abbrev pub Mirrors : Codec Envelope → Map QueueEntry → Db → Type 0
Mirrors codec queues db = (q : ℕ) → MirrorsAt codec q (lookup q queues) db
