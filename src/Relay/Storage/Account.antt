-- ===== src/Relay/Storage/Account.antt =====
-- What the operations do to the bytes that mailboxes hold and to the count of them.
use rosette.Prelude.{
  ℕ, ◌+◌, ◌*◌, ◌%◌, ◌^◌, ◌<◌, ◌≤◌, List, [], ◌∷◌, ◌++◌, none, some, ◌≡◌, refl, ◌∙◌, ap, sym, arith,
  length, sum_by, sum_by-append, Option-cases, inl, inr, false,
}
use rosette.Prelude.Map.{Map, lookup, insert}
use rosette.Prelude.Map.Sum.{sum_values, value_at, sum_values-insert, value_at-le-sum_values}
use rosette.Proto.Limits.{max_message_size, max_storage_bytes}
use rosette.Proto.Envelope.{Envelope}
use rosette.Proto.Wire.{GroupSendKind, commit, application}
use rosette.Relay.State.{Inner, QueueEntry, Pending, QueueKind-cases, mailbox, group_inbox, Env}
use rosette.Relay.Limits.{check_and_bump_rate_limit, counted, would_exceed_storage_bound}
use rosette.Relay.Queues.Create.{add_mailbox, add_group_inbox, new_entry}
use rosette.Relay.Queues.Push.{size, store, notify, push_and_notify}
use rosette.Relay.Queues.Group.{advance, advance_epoch, fan_out}
use rosette.Relay.Queues.Ack.{freed_bytes, unacked, ack}

abbrev pub pending_bytes : List Pending → ℕ
pending_bytes = sum_by (λ m. size m.1)

abbrev pub entry_bytes : QueueEntry → ℕ
entry_bytes e = elim e.kind [ mailbox pending ↦ pending_bytes pending | group_inbox _ _ ↦ 0 ]

-- The ciphertext bytes of all mailboxes.
abbrev pub stored_bytes : Map QueueEntry → ℕ
stored_bytes = sum_values entry_bytes

-- The count is exact.
abbrev pub IsExact : Inner → Type 0
IsExact s = s.storage_bytes_used ≡ stored_bytes s.queues

pub room_for :
    (s : Inner) (len targets : ℕ)
    → len ≤ max_message_size
    → targets < 2 ^ 48
    → would_exceed_storage_bound s len targets ≡ false
    → s.storage_bytes_used + len * targets ≤ max_storage_bytes
unfolding would_exceed_storage_bound
room_for s len targets h k e =
    let small : len * targets < 2 ^ 64 = grind arith in
    let same : (len * targets) % 2 ^ 64 ≡ len * targets = omega arith in ground (arith, same)

pub stored_bytes-insert :
    (q : ℕ) (e e' : QueueEntry) (m : Map QueueEntry)
    → lookup q m ≡ some e
    → stored_bytes (insert q e' m) + entry_bytes e ≡ stored_bytes m + entry_bytes e'
stored_bytes-insert q e e' m found =
    ap (λ o. stored_bytes (insert q e' m) + value_at entry_bytes o) (sym found)
    ∙ sum_values-insert entry_bytes q e' m

entry_bytes-check_and_bump :
    (now : ℕ) (e : QueueEntry) → entry_bytes (check_and_bump_rate_limit now e).0 ≡ entry_bytes e
unfolding check_and_bump_rate_limit
entry_bytes-check_and_bump now e = ground arith

pub stored_bytes-counted :
    (env : Env) (q : ℕ) (e : QueueEntry) (s : Inner)
    → lookup q s.queues ≡ some e
    → stored_bytes (counted env q e s).queues ≡ stored_bytes s.queues
stored_bytes-counted env q e s found = omega (
  arith,
  stored_bytes-insert q e (check_and_bump_rate_limit env.instant e).0 s.queues found,
  entry_bytes-check_and_bump env.instant e,
)

module _ (q mid : ℕ) (envelope : Envelope) where
  store-IsExact :
      (s : Inner)
      → IsExact s
      → s.storage_bytes_used + size envelope < 2 ^ 64
      → IsExact (store q mid envelope s)
        × ((store q mid envelope s).storage_bytes_used ≤ s.storage_bytes_used + size envelope)
  unfolding store
  store-IsExact s h fits = elim (Option-cases (lookup q s.queues)) [
    | inl e ↦ rw (e, store) (h, omega arith)
    | inr (entry, e) ↦ elim (QueueKind-cases entry.kind) [
      | inr (epoch, roster, k) ↦ ground arith
      | inl (pending, k) ↦ ground (
        arith,
        stored_bytes-insert q entry
            (record entry { kind = mailbox (pending ++ (mid, envelope) ∷ []) }) s.queues e,
        sum_by-append (λ (m : Pending). size m.1) pending ((mid, envelope) ∷ []),
      )
    ]
  ]

  pub push_and_notify-IsExact :
      (env : Env) (s : Inner)
      → IsExact s
      → s.storage_bytes_used + size envelope < 2 ^ 64
      → IsExact (push_and_notify env q mid envelope s)
        × ((push_and_notify env q mid envelope s).storage_bytes_used
            ≤ s.storage_bytes_used + size envelope)
  unfolding push_and_notify notify
  push_and_notify-IsExact env s h fits = ground (arith, store-IsExact s h fits)

pub fan_out-IsExact :
    (env : Env) (members : List ℕ) (envelope : Envelope) (s : Inner)
    → IsExact s
    → s.storage_bytes_used + size envelope * length members < 2 ^ 64
    → IsExact (fan_out env members envelope s)
      × ((fan_out env members envelope s).storage_bytes_used
          ≤ s.storage_bytes_used + size envelope * length members)
unfolding fan_out
fan_out-IsExact env [] envelope s h fits = (h, omega arith)
fan_out-IsExact env (m ∷ ms) envelope s h fits =
    let (exact, le) =
      push_and_notify-IsExact m envelope.message_id envelope env s h (omega arith) in
    let (exact', le') =
      fan_out-IsExact env ms envelope (push_and_notify env m envelope.message_id envelope s) exact
        (omega arith) in
    (exact', omega arith)

entry_bytes-advance :
    (kind : GroupSendKind) (e : QueueEntry) → entry_bytes (advance kind e) ≡ entry_bytes e
unfolding advance
entry_bytes-advance application e = refl
entry_bytes-advance (commit target) e = ground arith

pub advance_epoch-IsExact :
    (q : ℕ) (kind : GroupSendKind) (s : Inner) → IsExact s → IsExact (advance_epoch q kind s)
unfolding advance_epoch
advance_epoch-IsExact q kind s h = elim (Option-cases (lookup q s.queues)) [
  | inl e ↦ rw (e, advance_epoch) h
  | inr (entry, e) ↦ ground (
    arith,
    stored_bytes-insert q entry (advance kind entry) s.queues e,
    entry_bytes-advance kind entry,
  )
]

freed_bytes-unacked :
    (mid freed : ℕ) (pending : List Pending)
    → freed + pending_bytes pending < 2 ^ 64
    → freed_bytes mid freed pending + pending_bytes (unacked mid pending)
      ≡ freed + pending_bytes pending
unfolding freed_bytes unacked
freed_bytes-unacked mid freed [] h = omega arith
freed_bytes-unacked mid freed ((m, e) ∷ pending) h = ground (
  arith,
  freed_bytes-unacked mid freed pending,
  freed_bytes-unacked mid ((freed + size e) % 2 ^ 64) pending,
)

pub ack-IsExact :
    (q mid : ℕ) (s : Inner)
    → IsExact s
    → s.storage_bytes_used < 2 ^ 64
    → IsExact (ack q mid s) × ((ack q mid s).storage_bytes_used ≤ s.storage_bytes_used)
unfolding ack
ack-IsExact q mid s h fits = elim (Option-cases (lookup q s.queues)) [
  | inl e ↦ rw (e, ack) (h, omega arith)
  | inr (entry, e) ↦ elim (QueueKind-cases entry.kind) [
    | inr (epoch, roster, k) ↦ ground arith
    | inl (pending, k) ↦ ground (
      arith,
      stored_bytes-insert q entry (record entry { kind = mailbox (unacked mid pending) }) s.queues
          e,
      value_at-le-sum_values entry_bytes q s.queues,
      freed_bytes-unacked mid 0 pending,
    )
  ]
]

pub add_mailbox-IsExact :
    (env : Env) (id : ℕ) (t : Inner)
    → lookup id t.queues ≡ none
    → IsExact t
    → IsExact (add_mailbox env id t)
unfolding add_mailbox
add_mailbox-IsExact env id t free h =
    ground (arith, sum_values-insert entry_bytes id (new_entry env (mailbox [])) t.queues)

pub add_group_inbox-IsExact :
    (env : Env) (id epoch : ℕ) (roster : List ℕ) (t : Inner)
    → lookup id t.queues ≡ none
    → IsExact t
    → IsExact (add_group_inbox env id epoch roster t)
unfolding add_group_inbox
add_group_inbox-IsExact env id epoch roster t free h =
    ground
      (arith, sum_values-insert entry_bytes id (new_entry env (group_inbox epoch roster)) t.queues)
