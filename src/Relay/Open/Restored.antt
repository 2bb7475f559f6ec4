-- ===== src/Relay/Open/Restored.antt =====
-- A relay of relay/src/state.rs that is killed after any history, and opened again.
use rosette.Prelude.{
  ℕ, ◌+◌, ◌<◌, ◌≤◌, length, leb, false, Option-cases, inl, ◌^◌, List, Option, none, some, ◌≡◌, refl,
  sym, ap, ◌∙◌, subst, arith, inr, All,
}
use rosette.Prelude.Map.{Map, lookup}
use rosette.Proto.Codec.{Codec}
use rosette.Proto.Envelope.{Envelope}
use rosette.Relay.State.{
  Inner, QueueEntry, QueueKind, QueueRow, Db, Primitives, mailbox, group_inbox, new, EpochColumn,
  null, integer, real,
}
use rosette.Relay.Handle.History.{History, Event}
use rosette.Relay.Open.{kind_of, read_epoch, load_roster, open_state}
use rosette.Relay.Open.Loaded.{
  read_entry, opened_entry, load_queues-AreBelow, on_kind, with_members, with_messages,
}
use rosette.Relay.Open.Loops.{lookup-load_roster, load_pending-Reads}
use rosette.Relay.Persist.{
  MirrorsAt, row_image, entry_image, column_at, epoch_column, epoch_of, roster_of, messages_of,
  roster_at, pending_at,
}
use rosette.Relay.Persist.Below.{IsPersisted, IsBelow, AreBelow, lookup-IsBelow}
use rosette.Relay.Persist.Kept.{initial_epoch_of, History-IsPersisted}

-- A queue with a fresh window of its rate limit.
abbrev pub refreshed_at : ℕ → Option QueueEntry → Option QueueEntry
refreshed_at now none = none
refreshed_at now (some entry) = some (record entry { sent_this_minute = 0; window_started = now })

-- An INTEGER below 2 ^ 63 is read as the epoch in memory.
rebuilt_kind :
    (column : EpochColumn) (k : QueueKind) (bound : ℕ)
    → IsBelow bound column
    → bound ≤ 2 ^ 63
    → column ≡ column_at column (epoch_of k)
    → (epoch : Option ℕ) × (read_epoch column ≡ some epoch)
      × (with_messages (messages_of k) (with_members (roster_of k) (kind_of epoch)) ≡ k)
rebuilt_kind null (mailbox pending) bound below fits h = (none, refl, refl)
rebuilt_kind null (group_inbox epoch roster) bound below fits h = absurd (ground arith)
rebuilt_kind real k bound below fits h = absurd below
rebuilt_kind (integer own) (mailbox pending) bound below fits h = absurd (ground arith)
rebuilt_kind (integer own) (group_inbox epoch roster) bound below fits h =
    let small : leb (2 ^ 63) own ≡ false = ground (arith, fits, below) in
    let same : own ≡ epoch = ground arith in
    (some own, rw small refl, ap (λ n. group_inbox n roster) same)

rebuilt :
    (now bound : ℕ) (o : Option QueueEntry) (r : Option QueueRow)
    → bound ≤ 2 ^ 63
    → IsBelow bound (epoch_column r)
    → row_image r ≡ entry_image (epoch_column r) o
    → on_kind
        (with_messages (pending_at o))
        (on_kind (with_members (roster_at o)) (opened_entry now r))
      ≡ refreshed_at now o
rebuilt now bound none none fits below h = refl
rebuilt now bound none (some row) fits below h = absurd (ground arith)
rebuilt now bound (some entry) none fits below h = absurd (ground arith)
rebuilt now bound (some entry) (some row) fits below h =
    let key : row.send_key ≡ entry.send_key = ground arith in
    let column : row.epoch ≡ column_at row.epoch (epoch_of entry.kind) = ground arith in
    let (epoch, readable, same) = rebuilt_kind row.epoch entry.kind bound below fits column in
    let fresh : ℕ → QueueKind → QueueEntry =
      λ k kind. record { send_key = k; kind = kind; sent_this_minute = 0; window_started = now } in
    let grow : Option QueueEntry → Option QueueEntry = λ o.
      on_kind (with_messages (messages_of entry.kind))
        (on_kind (with_members (roster_of entry.kind)) o) in
    ap (λ e. grow (read_entry now row.send_key e)) readable
    ∙ ap (λ kind. some (fresh row.send_key kind)) same
    ∙ ap (λ k. some (fresh k entry.kind)) key

column-lookup :
    (bound q : ℕ) (rows : Map QueueRow)
    → AreBelow bound rows
    → IsBelow bound (epoch_column (lookup q rows))
column-lookup bound q rows below = elim (Option-cases (lookup q rows)) [
  | inl e ↦ rw e tt
  | inr (row, e) ↦ rw e (lookup-IsBelow bound q row rows e below)
]

refreshed_at-MirrorsAt :
    (codec : Codec Envelope) (now q : ℕ) (o : Option QueueEntry) (db : Db)
    → MirrorsAt codec q o db
    → MirrorsAt codec q (refreshed_at now o) db
refreshed_at-MirrorsAt codec now q none db m = m
refreshed_at-MirrorsAt codec now q (some entry) db m = record {
  row = m.row;
  roster = m.roster;
  pending = m.pending;
  own = m.own;
}

-- The tables are opened to the queues that they mirror.
opened :
    (codec : Codec Envelope) (codec_law : (v : Envelope) → codec.decode (codec.encode v) ≡ inr v)
    (now bound : ℕ) (s : Inner)
    → bound ≤ 2 ^ 63
    → (h : IsPersisted codec bound s)
    → (s' : Inner) × (open_state codec now h.tables ≡ some s')
      × (s'.db ≡ some h.tables)
      × ((q : ℕ) → lookup q s'.queues ≡ refreshed_at now (lookup q s.queues))
unfolding open_state
opened codec codec_law now bound s fits h =
    let db = h.tables in
    let (rows, loads, entries) = load_queues-AreBelow now bound db.queues fits h.below in
    let (used, queues, done, reads) =
      load_pending-Reads codec codec_law db.pending 0 (load_roster db.roster rows)
        (λ q. (pending_at (lookup q s.queues), ((h.mirrors q).pending, (h.mirrors q).own))) in
    (
      record new { queues = queues; storage_bytes_used = used; db = some db },
      rw (open_state, loads, done) refl,
      refl,
      λ q.
          let m = h.mirrors q in
          let o = lookup q s.queues in
          reads q (pending_at o) (m.pending, m.own)
          ∙ ap (on_kind (with_messages (pending_at o))) (
              lookup-load_roster q db.roster rows
              ∙ ap (λ members. on_kind (with_members members) (lookup q rows)) m.roster
              ∙ ap (on_kind (with_members (roster_at o))) (entries q))
          ∙ rebuilt now bound o (lookup q db.queues) fits (column-lookup bound q db.queues h.below)
              m.row,
    )

-- From a relay with a database that mirrors its queues, with epochs below a bound, let any history run
-- that makes inboxes with epochs below the bound, and that is too short to take the bound over 2 ^ 63,
-- and let the process end. The tables then open: every queue is there again with its key, its roster,
-- its epoch and its messages in their order, the window of its rate limit being new, and no other queue
-- is; and the database mirrors the new state. bincode decodes what it encoded.
pub reopen_restores :
    (p : Primitives) (codec_law : (v : Envelope) → p.codec.decode (p.codec.encode v) ≡ inr v)
    {s t : Inner} {events : List Event} (now bound : ℕ)
    → IsPersisted p.codec bound s
    → All (λ e. initial_epoch_of e.message < bound) events
    → bound + length events ≤ 2 ^ 63
    → History p s events t
    → (db : Db) × (s' : Inner) × (t.db ≡ some db)
      × (open_state p.codec now db ≡ some s')
      × IsPersisted p.codec (bound + length events) s'
      × ((q : ℕ) → lookup q s'.queues ≡ refreshed_at now (lookup q t.queues))
reopen_restores p codec_law {t = t} {events = events} now bound h first fits history =
    let kept = History-IsPersisted p bound h first fits history in
    let (s', done, has, same) = opened p.codec codec_law now (bound + length events) t fits kept in
    (
      kept.tables,
      s',
      kept.has,
      done,
      record {
        tables = kept.tables;
        has = has;
        mirrors = λ q.
            subst (λ o. MirrorsAt p.codec q o kept.tables) (sym (same q))
              (refreshed_at-MirrorsAt p.codec now q (lookup q t.queues) kept.tables
                (kept.mirrors q));
        below = kept.below;
      },
      same,
    )
