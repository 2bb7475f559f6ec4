-- ===== src/Relay/Open/Loaded.antt =====
-- What the loops of `RelayState::open` in relay/src/state.rs make of the rows of one queue.
use rosette.Prelude.{
  ℕ, ◌≤◌, ◌^◌, leb, false, arith, List, [], ◌∷◌, ◌++◌, Option, none, some, ◌≡◌, refl, sym, ap, ◌∙◌,
  subst, ◌==◌, ==_iff, if◌then◌else◌, Bool-cases, Option-cases, inl, inr,
}
use rosette.Prelude.Map.{Map, lookup, insert, lookup-insert}
use rosette.Proto.Envelope.{Envelope}
use rosette.Relay.State.{
  QueueEntry, QueueKind, QueueKind-cases, QueueRow, RosterRow, Pending, mailbox, group_inbox,
  EpochColumn, null, integer, real,
}
use rosette.Relay.Persist.Below.{IsBelow, AreBelow}
use rosette.Relay.Open.{read_epoch, entry_of, load_queues, add_member, add_pending}

read_epoch-IsBelow :
    (bound : ℕ) (column : EpochColumn)
    → bound ≤ 2 ^ 63
    → IsBelow bound column
    → (epoch : Option ℕ) × (read_epoch column ≡ some epoch)
read_epoch-IsBelow bound null fits below = (none, refl)
read_epoch-IsBelow bound real fits below = absurd below
read_epoch-IsBelow bound (integer epoch) fits below =
    let small : leb (2 ^ 63) epoch ≡ false = ground (arith, fits, below) in
    (some epoch, rw small refl)

abbrev pub read_entry : ℕ → ℕ → Option (Option ℕ) → Option QueueEntry
read_entry now send_key none = none
read_entry now send_key (some epoch) = some (entry_of now send_key epoch)

abbrev pub opened_entry : ℕ → Option QueueRow → Option QueueEntry
opened_entry now none = none
opened_entry now (some row) = read_entry now row.send_key (read_epoch row.epoch)

-- Rows with epochs below 2 ^ 63 are loaded, each as its entry.
pub load_queues-AreBelow :
    (now bound : ℕ) (rows : Map QueueRow)
    → bound ≤ 2 ^ 63
    → AreBelow bound rows
    → (queues : Map QueueEntry) × (load_queues now rows ≡ some queues)
      × ((q : ℕ) → lookup q queues ≡ opened_entry now (lookup q rows))
unfolding load_queues lookup
load_queues-AreBelow now bound [] fits below = ([], refl, λ q. refl)
load_queues-AreBelow now bound ((id, row) ∷ rows) fits below =
    let (queues, done, same) = load_queues-AreBelow now bound rows fits below.1 in
    let (epoch, readable) = read_epoch-IsBelow bound row.epoch fits below.0 in
    (
      insert id (entry_of now row.send_key epoch) queues,
      rw (readable, done) refl,
      λ q.
          lookup-insert id q (entry_of now row.send_key epoch) queues
          ∙ elim (Bool-cases (id == q)) [
            | inl hit ↦ rw hit (ap (read_entry now row.send_key) (sym readable))
            | inr miss ↦ rw miss (same q)
          ],
    )

abbrev pub with_members : List ℕ → QueueKind → QueueKind
with_members members (mailbox pending) = mailbox pending
with_members members (group_inbox epoch roster) = group_inbox epoch (roster ++ members)

abbrev pub with_messages : List Pending → QueueKind → QueueKind
with_messages messages (mailbox pending) = mailbox (pending ++ messages)
with_messages messages (group_inbox epoch roster) = group_inbox epoch roster

-- An entry whose kind is changed.
abbrev pub on_kind : (QueueKind → QueueKind) → Option QueueEntry → Option QueueEntry
on_kind f none = none
on_kind f (some entry) = some (record entry { kind = f entry.kind })

kept_kind :
    (f : QueueKind → QueueKind) (entry : QueueEntry)
    → f entry.kind ≡ entry.kind
    → some entry ≡ on_kind f (some entry)
kept_kind f entry h = ap (λ k. some (record entry { kind = k })) (sym h)

-- A write at one queue, as it is found at any.
written :
    (f : QueueKind → QueueKind) (j q : ℕ) (entry : QueueEntry) (queues : Map QueueEntry)
    → lookup j queues ≡ some entry
    → lookup q (insert j (record entry { kind = f entry.kind }) queues)
      ≡ (if j == q then on_kind f (lookup q queues) else lookup q queues)
written f j q entry queues found =
    lookup-insert j q (record entry { kind = f entry.kind }) queues ∙ elim (Bool-cases (j == q)) [
      | inl hit ↦ rw hit (
          subst (λ i. some (record entry { kind = f entry.kind }) ≡ on_kind f (lookup i queues))
            ((==_iff j q).0 hit) (sym (ap (on_kind f) found)))
      | inr miss ↦ rw miss refl
    ]

untouched :
    (f : QueueKind → QueueKind) (j q : ℕ) (queues : Map QueueEntry)
    → lookup j queues ≡ on_kind f (lookup j queues)
    → lookup q queues ≡ (if j == q then on_kind f (lookup q queues) else lookup q queues)
untouched f j q queues h = elim (Bool-cases (j == q)) [
  | inl hit ↦
      rw hit (subst (λ i. lookup i queues ≡ on_kind f (lookup i queues)) ((==_iff j q).0 hit) h)
  | inr miss ↦ rw miss refl
]

pub lookup-add_member :
    (q : ℕ) (row : RosterRow) (queues : Map QueueEntry)
    → lookup q (add_member row queues) ≡ (
        if row.inbox_id == q
        then on_kind (with_members (row.member_queue ∷ [])) (lookup q queues)
        else lookup q queues)
unfolding add_member
lookup-add_member q row queues =
    let f = with_members (row.member_queue ∷ []) in
    elim (Option-cases (lookup row.inbox_id queues)) [
      | inl e ↦ rw (e, add_member) (untouched f row.inbox_id q queues (e ∙ sym (ap (on_kind f) e)))
      | inr (entry, e) ↦ elim (QueueKind-cases entry.kind) [
        | inl (pending, k) ↦
            rw (e, k, add_member)
              (untouched f row.inbox_id q queues
                (e ∙ kept_kind f entry (ap f k ∙ sym k) ∙ sym (ap (on_kind f) e)))
        | inr (epoch, roster, k) ↦
            rw (e, k, add_member)
              (ap (λ kind. lookup q (insert row.inbox_id (record entry { kind = kind }) queues))
                  (sym (ap f k))
                ∙ written f row.inbox_id q entry queues e)
      ]
    ]

pub lookup-add_pending :
    (q id : ℕ) (v : Envelope) (queues : Map QueueEntry)
    → lookup q (add_pending id v queues) ≡ (
        if id == q
        then on_kind (with_messages ((v.message_id, v) ∷ [])) (lookup q queues)
        else lookup q queues)
unfolding add_pending
lookup-add_pending q id v queues =
    let f = with_messages ((v.message_id, v) ∷ []) in
    elim (Option-cases (lookup id queues)) [
      | inl e ↦ rw (e, add_pending) (untouched f id q queues (e ∙ sym (ap (on_kind f) e)))
      | inr (entry, e) ↦ elim (QueueKind-cases entry.kind) [
        | inr (epoch, roster, k) ↦
            rw (e, k, add_pending)
              (untouched f id q queues
                (e ∙ kept_kind f entry (ap f k ∙ sym k) ∙ sym (ap (on_kind f) e)))
        | inl (pending, k) ↦
            rw (e, k, add_pending)
              (ap (λ kind. lookup q (insert id (record entry { kind = kind }) queues))
                  (sym (ap f k))
                ∙ written f id q entry queues e)
      ]
    ]
