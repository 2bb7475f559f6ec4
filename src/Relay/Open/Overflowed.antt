-- ===== src/Relay/Open/Overflowed.antt =====
-- The largest epoch of relay/src/state.rs, and the open after a commit to it.
use rosette.Prelude.{
  ℕ, ◌-◌, ◌^◌, List, [], ◌∷◌, Option, none, some, ◌≡◌, refl, ap, ◌∙◌, arith, ==_refl, ◌==◌,
  Bool-cases, inl, inr,
}
use rosette.Prelude.Map.{Map, lookup, lookup-insert}
use rosette.Proto.Codec.{Codec}
use rosette.Proto.Envelope.{Envelope}
use rosette.Proto.Wire.{commit}
use rosette.Relay.State.{QueueRow, Db, integer, real}
use rosette.Relay.Queues.Tables.{bump_epoch}
use rosette.Relay.Queues.Group.{persist_group, insert_pendings}
use rosette.Relay.Open.{read_epoch, add_queue, load_queues, open_state}
use rosette.Relay.Persist.Below.{queues-insert_pendings}

load_queues-unreadable :
    (now q : ℕ) (row : QueueRow) (rows : Map QueueRow)
    → lookup q rows ≡ some row
    → read_epoch row.epoch ≡ none
    → load_queues now rows ≡ none
unfolding load_queues lookup
load_queues-unreadable now q row [] found h = absurd (ground arith)
load_queues-unreadable now q row ((id, own) ∷ rows) found h = elim (Bool-cases (id == q)) [
  | inl hit ↦
      let same : own ≡ row = ground arith in
      ap (λ r. add_queue now id own.send_key (read_epoch r.epoch) (load_queues now rows)) same
      ∙ ap (λ e. add_queue now id own.send_key e (load_queues now rows)) h
  | inr miss ↦
      let rest : lookup q rows ≡ some row = ground arith in
      ap (add_queue now id own.send_key (read_epoch own.epoch))
        (load_queues-unreadable now q row rows rest h)
      ∙ no_queues now id own.send_key (read_epoch own.epoch)
]
  where
    no_queues :
        (now id key : ℕ) (epoch : Option (Option ℕ)) → add_queue now id key epoch none ≡ none
    no_queues now id key none = refl
    no_queues now id key (some epoch) = refl

-- When the row of a group inbox has the epoch 2 ^ 63 - 1, the transaction of an accepted commit makes
-- its epoch a REAL, and the tables, whatever else they hold, do not open any more.
pub overflowed_epoch_stops_open :
    (codec : Codec Envelope) (now q target key : ℕ) (targets : List ℕ) (v : Envelope) (db : Db)
    → lookup q db.queues ≡ some (record { send_key = key; epoch = integer (2 ^ 63 - 1) })
    → let db' = persist_group codec q (commit target) targets v db in
      (lookup q db'.queues ≡ some (record { send_key = key; epoch = real }))
      × (open_state codec now db' ≡ none)
unfolding persist_group bump_epoch open_state
overflowed_epoch_stops_open codec now q target key targets v db found =
    let row : QueueRow = record { send_key = key; epoch = real } in
    let db1 = bump_epoch q db in
    let bumped : lookup q db1.queues ≡ some row =
      rw (found, bump_epoch) (lookup-insert q q row db.queues ∙ rw (==_refl q) refl) in
    let kept = queues-insert_pendings codec targets v db1 in
    let there : lookup q (insert_pendings codec targets v db1).queues ≡ some row =
      ap (lookup q) kept ∙ bumped in
    (
      there,
      rw
          (
            open_state,
            load_queues-unreadable now q row (insert_pendings codec targets v db1).queues there
                refl,
          )
          refl,
    )
