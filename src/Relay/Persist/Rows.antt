-- ===== src/Relay/Persist/Rows.antt =====
-- What the statements of relay/src/state.rs do to the rows of one queue.
use rosette.Prelude.{
  ℕ, List, [], ◌∷◌, ◌++◌, ◌≡◌, refl, ap, ◌∙◌, arith, map, retain, ◌==◌, not, ◌&&◌, if◌then◌else◌,
}
use rosette.Proto.Codec.{Codec}
use rosette.Proto.Envelope.{Envelope}
use rosette.Relay.State.{RosterRow, PendingRow, Db, Pending}
use rosette.Relay.Queues.Tables.{insert_roster, insert_pending, delete_pending}
use rosette.Relay.Queues.Ack.{unacked}
use rosette.Relay.Persist.{roster_rows, pending_rows, encoded}

roster_rows-append :
    (q : ℕ) (xs ys : List RosterRow)
    → roster_rows q (xs ++ ys) ≡ roster_rows q xs ++ roster_rows q ys
unfolding roster_rows
roster_rows-append q [] ys = refl
roster_rows-append q (x ∷ xs) ys = ground (arith, roster_rows-append q xs ys)

roster_rows-members :
    (q id : ℕ) (members : List ℕ)
    → roster_rows q (map (λ m. record { inbox_id = id; member_queue = m }) members)
      ≡ (if id == q then members else [])
unfolding roster_rows
roster_rows-members q id [] = ground arith
roster_rows-members q id (m ∷ members) = ground (arith, roster_rows-members q id members)

pub roster_rows-insert_roster :
    (q id : ℕ) (members : List ℕ) (db : Db)
    → roster_rows q (insert_roster id members db).roster
      ≡ roster_rows q db.roster ++ (if id == q then members else [])
unfolding insert_roster
roster_rows-insert_roster q id members db =
    roster_rows-append q db.roster (map (λ m. record { inbox_id = id; member_queue = m }) members)
    ∙ ap (roster_rows q db.roster ++◌) (roster_rows-members q id members)

pending_rows-append :
    (q : ℕ) (xs ys : List PendingRow)
    → pending_rows q (xs ++ ys) ≡ pending_rows q xs ++ pending_rows q ys
unfolding pending_rows
pending_rows-append q [] ys = refl
pending_rows-append q (x ∷ xs) ys = ground (arith, pending_rows-append q xs ys)

pub pending_rows-insert_pending :
    (codec : Codec Envelope) (q id : ℕ) (envelope : Envelope) (db : Db)
    → pending_rows q (insert_pending codec id envelope db).pending
      ≡ pending_rows q db.pending
        ++ (if id == q then (envelope.message_id, codec.encode envelope) ∷ [] else [])
unfolding insert_pending pending_rows
pending_rows-insert_pending codec q id envelope db = pending_rows-append q db.pending _

-- The rows of a queue without those of one message.
abbrev pub without : ℕ → List (ℕ × List ℕ) → List (ℕ × List ℕ)
without mid = retain (λ r. not (r.0 == mid))

pending_rows-retain :
    (q id mid : ℕ) (rows : List PendingRow)
    → pending_rows q (retain (λ row. not (row.queue_id == id && row.message_id == mid)) rows)
      ≡ (if id == q then without mid (pending_rows q rows) else pending_rows q rows)
unfolding pending_rows
pending_rows-retain q id mid [] = ground arith
pending_rows-retain q id mid (row ∷ rows) = ground (arith, pending_rows-retain q id mid rows)

pub pending_rows-delete_pending :
    (q id mid : ℕ) (db : Db)
    → pending_rows q (delete_pending id mid db).pending
      ≡ (if id == q then without mid (pending_rows q db.pending) else pending_rows q db.pending)
unfolding delete_pending
pending_rows-delete_pending q id mid db = pending_rows-retain q id mid db.pending

pub without-encoded :
    (codec : Codec Envelope) (mid : ℕ) (pending : List Pending)
    → without mid (map (encoded codec) pending) ≡ map (encoded codec) (unacked mid pending)
unfolding unacked
without-encoded codec mid [] = refl
without-encoded codec mid ((m, envelope) ∷ pending) =
    ground (arith, without-encoded codec mid pending)

pub map-append :
    (f : Pending → ℕ × List ℕ) (xs ys : List Pending) → map f (xs ++ ys) ≡ map f xs ++ map f ys
map-append f [] ys = refl
map-append f (x ∷ xs) ys = ap (f x ∷◌) (map-append f xs ys)
