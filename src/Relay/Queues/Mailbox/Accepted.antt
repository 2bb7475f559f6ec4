-- ===== src/Relay/Queues/Mailbox/Accepted.antt =====
-- What a send to a mailbox has passed when it is accepted, and what a rejected one leaves.
use rosette.Prelude.{
  ℕ, List, ◌≤◌, ◌<◌, ◌≡◌, ap, sym, ◌∙◌, some, false, true, arith, length, ltb, Option-cases, ◌⊎◌,
  inl, inr, Bool-cases,
}
use rosette.Prelude.Map.{lookup}
use rosette.Proto.Limits.{max_message_size, max_queue_depth}
use rosette.Proto.Error.{ok, err, RejectionCode, Result-cases}
use rosette.Proto.Envelope.{Envelope}
use rosette.Proto.Auth.{verify_tag}
use rosette.Relay.State.{Inner, QueueEntry, Pending, mailbox, Primitives, Env}
use rosette.Relay.Limits.{counted, check_and_bump_rate_limit, would_exceed_storage_bound}
use rosette.Relay.Queues.Push.{size, push_and_notify}
use rosette.Relay.Queues.Tables.{with_db, insert_pending}
use rosette.Relay.Queues.Mailbox.{check_mailbox, send_limited, store_in_mailbox, send_to_mailbox}

module _ (p : Primitives) (env : Env) (j : ℕ) (tag : ℕ) (envelope : Envelope) where
  pub record Accepted (s s' : Inner) : Type 0 where
    pub entry : QueueEntry
    pub pending : List Pending
    pub small : size envelope ≤ max_message_size
    pub found : lookup j s.queues ≡ some entry
    pub is_mailbox : entry.kind ≡ mailbox pending
    pub authorized : verify_tag p.hmac p.codec entry.send_key j envelope tag ≡ true
    pub shallow : length pending < max_queue_depth
    pub in_limit : (check_and_bump_rate_limit env.instant entry).1 ≡ ok tt
    pub room : would_exceed_storage_bound (counted env j entry s) (size envelope) 1 ≡ false
    pub result :
        s'
        ≡ push_and_notify env j envelope.message_id envelope
            (with_db (insert_pending p.codec j envelope) (counted env j entry s))

  passed :
      (s : Inner)
      → (send_to_mailbox p env j tag envelope s).1 ≡ ok tt
      → (entry : QueueEntry) × (lookup j s.queues ≡ some entry)
        × (check_mailbox p j tag envelope entry ≡ ok tt)
        × (size envelope ≤ max_message_size)
        × (send_to_mailbox p env j tag envelope s ≡ send_limited p env j envelope entry s)
  unfolding send_to_mailbox
  passed s h = elim (Option-cases (lookup j s.queues)) [
    | inl e ↦ absurd (ground arith)
    | inr (entry, e) ↦ (entry, e, ground arith, ground arith, ground arith)
  ]

  checked :
      (entry : QueueEntry)
      → check_mailbox p j tag envelope entry ≡ ok tt
      → (pending : List Pending) × (entry.kind ≡ mailbox pending)
        × (verify_tag p.hmac p.codec entry.send_key j envelope tag ≡ true)
        × (length pending < max_queue_depth)
  unfolding check_mailbox
  checked entry h = ground arith

  delivered :
      (entry : QueueEntry) (s : Inner)
      → (send_limited p env j envelope entry s).1 ≡ ok tt
      → ((check_and_bump_rate_limit env.instant entry).1 ≡ ok tt)
        × (would_exceed_storage_bound (counted env j entry s) (size envelope) 1 ≡ false)
        × ((send_limited p env j envelope entry s).0
            ≡ push_and_notify env j envelope.message_id envelope
                (with_db (insert_pending p.codec j envelope) (counted env j entry s)))
  unfolding send_limited store_in_mailbox
  delivered entry s h = ground arith

  -- Acceptance means all of this.
  pub accepted :
      (s : Inner)
      → (send_to_mailbox p env j tag envelope s).1 ≡ ok tt
      → Accepted s (send_to_mailbox p env j tag envelope s).0
  accepted s h =
      let (entry, found, check, small, same) = passed s h in
      let (pending, is_mailbox, authorized, shallow) = checked entry check in
      let (in_limit, room, result) = delivered entry s (ap (λ r. r.1) (sym same) ∙ h) in
      record {
        entry = entry;
        pending = pending;
        small = small;
        found = found;
        is_mailbox = is_mailbox;
        authorized = authorized;
        shallow = shallow;
        in_limit = in_limit;
        room = room;
        result = ap (λ r. r.0) same ∙ result;
      }

  -- A rejected send changes at most the rate-limit window of its queue.
  pub rejected :
      (s : Inner) (code : RejectionCode)
      → (send_to_mailbox p env j tag envelope s).1 ≡ err code
      → ((send_to_mailbox p env j tag envelope s).0 ≡ s)
        ⊎ ((entry : QueueEntry) × (lookup j s.queues ≡ some entry)
            × ((send_to_mailbox p env j tag envelope s).0 ≡ counted env j entry s))
  unfolding send_to_mailbox send_limited store_in_mailbox
  rejected s code h = elim (Option-cases (lookup j s.queues)) [
    | inl e ↦ inl (ground arith)
    | inr (entry, e) ↦ elim (Result-cases (check_mailbox p j tag envelope entry)) [
      | inr (other, c) ↦ inl (ground arith)
      | inl (done, c) ↦ elim (Bool-cases (ltb max_message_size (size envelope))) [
        | inl full ↦ inl (ground arith)
        | inr free ↦ inr (entry, e, ground arith)
      ]
    ]
  ]
