-- ===== src/Relay/Queues/Tables.antt =====
-- The SQL statements of relay/src/state.rs, as functions on the tables.
use rosette.Prelude.{
  ℕ, ◌+◌, ◌^◌, leb, if◌then◌else◌, List, [], ◌∷◌, ◌++◌, not, ◌&&◌, Option, none, some, ◌==◌, map,
  retain,
}
use rosette.Prelude.Map.{lookup, insert}
use rosette.Proto.Codec.{Codec}
use rosette.Proto.Envelope.{Envelope}
use rosette.Relay.State.{Db, Inner, EpochColumn, null, integer, real}

-- A statement runs where there is a database.
abbrev pub with_db : (Db → Db) → Inner → Inner
with_db f s = record s { db = elim s.db [ none ↦ none | some db ↦ some (f db) ] }

-- The column that a creation writes. rusqlite refuses 2^63 and above, and the relay then panics.
abbrev pub as_column : Option ℕ → EpochColumn
as_column none = null
as_column (some epoch) = integer epoch

-- INSERT INTO queues
unfoldable pub insert_queue : ℕ → ℕ → Option ℕ → Db → Db
insert_queue queue_id send_key epoch db = record db {
  queues = insert queue_id (record { send_key = send_key; epoch = as_column epoch }) db.queues;
}

-- INSERT INTO roster, once for each member in its order
unfoldable pub insert_roster : ℕ → List ℕ → Db → Db
insert_roster inbox_id members db = record db {
  roster = db.roster ++ map (λ m. record { inbox_id = inbox_id; member_queue = m }) members;
}

-- INSERT INTO pending
unfoldable pub insert_pending : Codec Envelope → ℕ → Envelope → Db → Db
insert_pending codec queue_id envelope db = record db {
  pending =
      db.pending
      ++ record {
        queue_id = queue_id;
        message_id = envelope.message_id;
        envelope = codec.encode envelope;
      }
        ∷ [];
}

-- `epoch + 1`, which is NULL for NULL, and a REAL past the INTEGERs and for a REAL
abbrev pub next_epoch : EpochColumn → EpochColumn
next_epoch null = null
next_epoch (integer e) = if leb (2 ^ 63) (e + 1) then real else integer (e + 1)
next_epoch real = real

-- UPDATE queues SET epoch = epoch + 1 WHERE queue_id = ?1
unfoldable pub bump_epoch : ℕ → Db → Db
bump_epoch queue_id db = elim (lookup queue_id db.queues) [
  | none ↦ db
  | some row ↦ record db {
    queues = insert queue_id (record row { epoch = next_epoch row.epoch }) db.queues;
  }
]

-- DELETE FROM pending WHERE queue_id = ?1 AND message_id = ?2
unfoldable pub delete_pending : ℕ → ℕ → Db → Db
delete_pending queue_id message_id db = record db {
  pending =
      retain (λ row. not (row.queue_id == queue_id && row.message_id == message_id)) db.pending;
}
