-- ===== src/Relay/Persist/Below.antt =====
-- The epochs of the table `queues` of relay/src/state.rs below a bound.
use rosette.Prelude.{
  ℕ, ◌+◌, ◌<◌, ◌^◌, suc, List, [], ◌∷◌, Option, some, ◌≡◌, refl, arith, All, false, leb, Bool-cases,
  Option-cases, inl, inr, subst, ◌==◌,
}
use rosette.Prelude.Map.{Map, lookup, insert}
use rosette.Proto.Codec.{Codec}
use rosette.Proto.Envelope.{Envelope}
use rosette.Proto.Wire.{GroupSendKind, application, commit}
use rosette.Relay.State.{Inner, QueueRow, Db, EpochColumn, null, integer, real}
use rosette.Relay.Queues.Tables.{as_column, next_epoch, insert_queue, bump_epoch, insert_pending}
use rosette.Relay.Queues.Group.{insert_pendings}
use rosette.Relay.Persist.{Mirrors}
use rosette.Relay.Persist.Advance.{with_epoch}

-- An epoch is an INTEGER below the bound.
abbrev pub IsBelow : ℕ → EpochColumn → Type 0
IsBelow bound null = Unit
IsBelow bound (integer epoch) = epoch < bound
IsBelow bound real = ⊥

abbrev pub AreBelow : ℕ → Map QueueRow → Type 0
AreBelow bound = All (λ r. IsBelow bound r.1.epoch)

-- The relay has a database, whose tables mirror its queues, with epochs below the bound.
pub record IsPersisted (codec : Codec Envelope) (bound : ℕ) (s : Inner) : Type 0 where
  pub tables : Db
  pub has : s.db ≡ some tables
  pub mirrors : Mirrors codec s.queues tables
  pub below : AreBelow bound tables.queues

IsBelow-suc : (bound : ℕ) (column : EpochColumn) → IsBelow bound column → IsBelow (suc bound) column
IsBelow-suc bound null h = tt
IsBelow-suc bound (integer epoch) h = omega (arith, h)
IsBelow-suc bound real h = h

pub AreBelow-suc :
    (bound : ℕ) (rows : Map QueueRow) → AreBelow bound rows → AreBelow (suc bound) rows
AreBelow-suc bound [] h = tt
AreBelow-suc bound ((id, row) ∷ rows) h =
    (IsBelow-suc bound row.epoch h.0, AreBelow-suc bound rows h.1)

insert-AreBelow :
    (bound id : ℕ) (row : QueueRow) (rows : Map QueueRow)
    → IsBelow bound row.epoch
    → AreBelow bound rows
    → AreBelow bound (insert id row rows)
unfolding insert
insert-AreBelow bound id row [] own h = (own, tt)
insert-AreBelow bound id row ((j, old) ∷ rows) own h = elim (Bool-cases (j == id)) [
  | inl hit ↦ rw (hit, insert) (own, h.1)
  | inr miss ↦ rw (miss, insert) (h.0, insert-AreBelow bound id row rows own h.1)
]

pub insert_queue-AreBelow :
    (bound id key : ℕ) (epoch : Option ℕ) (db : Db)
    → IsBelow bound (as_column epoch)
    → AreBelow bound db.queues
    → AreBelow bound (insert_queue id key epoch db).queues
unfolding insert_queue
insert_queue-AreBelow bound id key epoch db own h =
    insert-AreBelow bound id (record { send_key = key; epoch = as_column epoch }) db.queues own h

pub lookup-IsBelow :
    (bound j : ℕ) (row : QueueRow) (rows : Map QueueRow)
    → lookup j rows ≡ some row
    → AreBelow bound rows
    → IsBelow bound row.epoch
unfolding lookup
lookup-IsBelow bound j row [] e h = absurd (ground arith)
lookup-IsBelow bound j row ((i, own) ∷ rows) e h = elim (Bool-cases (i == j)) [
  | inl hit ↦ let same : own ≡ row = ground arith in subst (λ r. IsBelow bound r.epoch) same h.0
  | inr miss ↦
      let rest : lookup j rows ≡ some row = ground arith in lookup-IsBelow bound j row rows rest h.1
]

next_epoch-IsBelow :
    (bound : ℕ) (column : EpochColumn)
    → bound < 2 ^ 63
    → IsBelow bound column
    → IsBelow (suc bound) (next_epoch column)
next_epoch-IsBelow bound null small h = tt
next_epoch-IsBelow bound real small h = h
next_epoch-IsBelow bound (integer epoch) small h =
    let fits : leb (2 ^ 63) (epoch + 1) ≡ false = ground (arith, small, h) in
    rw fits (omega (arith, h))

pub with_epoch-AreBelow :
    (codec : Codec Envelope) (bound j : ℕ) (kind : GroupSendKind) (db : Db)
    → bound < 2 ^ 63
    → AreBelow bound db.queues
    → AreBelow (suc bound) (with_epoch codec j kind db).queues
unfolding bump_epoch
with_epoch-AreBelow codec bound j application db small h = AreBelow-suc bound db.queues h
with_epoch-AreBelow codec bound j (commit target) db small h =
    elim (Option-cases (lookup j db.queues)) [
      | inl e ↦ rw (e, bump_epoch) (AreBelow-suc bound db.queues h)
      | inr (row, e) ↦
          rw (e, bump_epoch)
            (insert-AreBelow (suc bound) j (record row { epoch = next_epoch row.epoch }) db.queues
              (next_epoch-IsBelow bound row.epoch small (lookup-IsBelow bound j row db.queues e h))
              (AreBelow-suc bound db.queues h))
    ]

pub IsPersisted-suc :
    {codec : Codec Envelope} {bound : ℕ} {s : Inner}
    → IsPersisted codec bound s
    → IsPersisted codec (suc bound) s
IsPersisted-suc {bound = bound} h = record {
  tables = h.tables;
  has = h.has;
  mirrors = h.mirrors;
  below = AreBelow-suc bound h.tables.queues h.below;
}

pub queues-insert_pendings :
    (codec : Codec Envelope) (targets : List ℕ) (v : Envelope) (db : Db)
    → (insert_pendings codec targets v db).queues ≡ db.queues
unfolding insert_pendings insert_pending
queues-insert_pendings codec [] v db = refl
queues-insert_pendings codec (q ∷ targets) v db =
    queues-insert_pendings codec targets v (insert_pending codec q v db)
