-- ===== src/Relay/Queues/Group/Accepted.antt =====
-- What a send to a group inbox has passed when it is accepted, and what a rejected one leaves.
use rosette.Prelude.{
  ℕ, List, ◌≤◌, ◌≡◌, ap, sym, ◌∙◌, some, false, true, arith, length, ltb, ◌||◌, Option-cases, ◌⊎◌,
  inl, inr, Bool-cases,
}
use rosette.Prelude.Map.{lookup}
use rosette.Proto.Limits.{max_message_size}
use rosette.Proto.Error.{ok, err, RejectionCode, Result-cases}
use rosette.Proto.Envelope.{Envelope}
use rosette.Proto.Auth.{verify_tag}
use rosette.Proto.Wire.{GroupSendKind}
use rosette.Relay.State.{Inner, QueueEntry, group_inbox, Primitives, Env}
use rosette.Relay.Limits.{counted, check_and_bump_rate_limit, would_exceed_storage_bound}
use rosette.Relay.Queues.Push.{size}
use rosette.Relay.Queues.Group.{
  check_group, send_checked, send_to_group_inbox, deliver_to_group, epoch_matches,
}

module _ (p : Primitives) (env : Env) (j : ℕ) (kind : GroupSendKind) (tag : ℕ)
    (envelope : Envelope) where
  pub record Accepted (s s' : Inner) : Type 0 where
    pub entry : QueueEntry
    pub epoch : ℕ
    pub roster : List ℕ
    pub small : size envelope ≤ max_message_size
    pub found : lookup j s.queues ≡ some entry
    pub authorized : verify_tag p.hmac p.codec entry.send_key j envelope tag ≡ true
    pub is_inbox : entry.kind ≡ group_inbox epoch roster
    pub in_epoch : epoch_matches kind epoch ≡ true
    pub room : would_exceed_storage_bound s (size envelope) (length roster) ≡ false
    pub in_limit : (check_and_bump_rate_limit env.instant entry).1 ≡ ok tt
    pub result : s' ≡ deliver_to_group p env j kind envelope roster (counted env j entry s)

  -- The checks that come first, and what follows them.
  passed :
      (s : Inner)
      → (send_to_group_inbox p env j kind tag envelope s).1 ≡ ok tt
      → (entry : QueueEntry) × (roster : List ℕ) × (lookup j s.queues ≡ some entry)
        × (check_group p j kind tag envelope entry ≡ ok roster)
        × (size envelope ≤ max_message_size)
        × (send_to_group_inbox p env j kind tag envelope s
            ≡ send_checked p env j kind envelope entry roster s)
  unfolding send_to_group_inbox
  passed s h = elim (Option-cases (lookup j s.queues)) [
    | inl e ↦ absurd (ground arith)
    | inr (entry, e) ↦ elim (Result-cases (check_group p j kind tag envelope entry)) [
      | inl (roster, c) ↦ (entry, roster, e, c, ground arith, ground arith)
      | inr (code, c) ↦ absurd (ground arith)
    ]
  ]

  checked :
      (entry : QueueEntry) (roster : List ℕ)
      → check_group p j kind tag envelope entry ≡ ok roster
      → (epoch : ℕ) × (verify_tag p.hmac p.codec entry.send_key j envelope tag ≡ true)
        × (entry.kind ≡ group_inbox epoch roster)
        × (epoch_matches kind epoch ≡ true)
  unfolding check_group
  checked entry roster h = ground arith

  delivered :
      (entry : QueueEntry) (roster : List ℕ) (s : Inner)
      → (send_checked p env j kind envelope entry roster s).1 ≡ ok tt
      → (would_exceed_storage_bound s (size envelope) (length roster) ≡ false)
        × ((check_and_bump_rate_limit env.instant entry).1 ≡ ok tt)
        × ((send_checked p env j kind envelope entry roster s).0
            ≡ deliver_to_group p env j kind envelope roster (counted env j entry s))
  unfolding send_checked
  delivered entry roster s h = ground arith

  -- Acceptance means all of this.
  pub accepted :
      (s : Inner)
      → (send_to_group_inbox p env j kind tag envelope s).1 ≡ ok tt
      → Accepted s (send_to_group_inbox p env j kind tag envelope s).0
  accepted s h =
      let (entry, roster, found, check, small, same) = passed s h in
      let (epoch, authorized, is_inbox, in_epoch) = checked entry roster check in
      let (room, in_limit, result) = delivered entry roster s (ap (λ r. r.1) (sym same) ∙ h) in
      record {
        entry = entry;
        epoch = epoch;
        roster = roster;
        small = small;
        found = found;
        authorized = authorized;
        is_inbox = is_inbox;
        in_epoch = in_epoch;
        room = room;
        in_limit = in_limit;
        result = ap (λ r. r.0) same ∙ result;
      }

  -- A rejected send changes at most the rate-limit window of its queue.
  pub rejected :
      (s : Inner) (code : RejectionCode)
      → (send_to_group_inbox p env j kind tag envelope s).1 ≡ err code
      → ((send_to_group_inbox p env j kind tag envelope s).0 ≡ s)
        ⊎ ((entry : QueueEntry) × (lookup j s.queues ≡ some entry)
            × ((send_to_group_inbox p env j kind tag envelope s).0 ≡ counted env j entry s))
  unfolding send_to_group_inbox send_checked
  rejected s code h = elim (Option-cases (lookup j s.queues)) [
    | inl e ↦ inl (ground arith)
    | inr (entry, e) ↦ elim (Result-cases (check_group p j kind tag envelope entry)) [
      | inr (code, c) ↦ inl (ground arith)
      | inl (roster, c) ↦
          elim (Bool-cases (
            ltb max_message_size (size envelope)
            || would_exceed_storage_bound s (size envelope) (length roster))) [
              | inl full ↦ inl (ground arith)
              | inr free ↦ inr (entry, e, ground arith)
            ]
    ]
  ]
