-- ===== src/Relay/Delivery/Fanned.antt =====
-- What an accepted send puts into mailboxes.
use mathlib.Core.List.{append-nil, append_assoc}
use rosette.Prelude.{
  ℕ, suc, List, [], ◌∷◌, ◌++◌, Option, none, some, ◌≡◌, arith, inl, inr, ◌==◌, if◌then◌else◌,
  Bool-cases, ◌∙◌, ap, sym, replicate,
}
use rosette.Prelude.Map.{lookup, lookup-insert}
use rosette.Proto.Error.{ok}
use rosette.Proto.Envelope.{Envelope}
use rosette.Proto.Wire.{GroupSendKind, commit, application}
use rosette.Relay.State.{Inner, QueueEntry, Pending, mailbox, group_inbox, Primitives, Env}
use rosette.Relay.Limits.{counted, check_and_bump_rate_limit}
use rosette.Relay.Queues.Push.{store, notify, push_and_notify}
use rosette.Relay.Queues.Group.{
  fan_out, advance, advance_epoch, deliver_to_group, persist_group, stored_targets,
  send_to_group_inbox,
}
use rosette.Relay.Queues.Mailbox.{send_to_mailbox}
use rosette.Relay.Queues.Tables.{with_db, insert_pending}
use rosette.Relay.Queues.Mailbox.Accepted as Mail
use rosette.Relay.Queues.Group.Accepted as Group

-- The messages of a mailbox.
abbrev pub as_mailbox : Option QueueEntry → Option (List Pending)
as_mailbox none = none
as_mailbox (some e) = elim e.kind [ mailbox pending ↦ some pending | group_inbox _ _ ↦ none ]

abbrev pub mailbox_at : ℕ → Inner → Option (List Pending)
mailbox_at q s = as_mailbox (lookup q s.queues)

-- How often a number stands in a list.
abbrev pub times : ℕ → List ℕ → ℕ
times q [] = 0
times q (x ∷ xs) = if x == q then suc (times q xs) else times q xs

module _ (q : ℕ) where
  mailbox_at-push_and_notify :
      (env : Env) (j mid : ℕ) (v : Envelope) (s : Inner) (pending : List Pending)
      → mailbox_at q s ≡ some pending
      → mailbox_at q (push_and_notify env j mid v s)
        ≡ some (if j == q then pending ++ (mid, v) ∷ [] else pending)
  unfolding push_and_notify notify store
  mailbox_at-push_and_notify env j mid v s pending h = grind (arith, lookup-insert)

  mailbox_at-fan_out :
      (env : Env) (members : List ℕ) (v : Envelope) (s : Inner) (pending : List Pending)
      → mailbox_at q s ≡ some pending
      → mailbox_at q (fan_out env members v s)
        ≡ some (pending ++ replicate (times q members) (v.message_id, v))
  unfolding fan_out
  mailbox_at-fan_out env [] v s pending h = h ∙ ap some (sym (append-nil pending))
  mailbox_at-fan_out env (m ∷ ms) v s pending h = elim (Bool-cases (m == q)) [
    | inl hit ↦
        mailbox_at-fan_out env ms v (push_and_notify env m v.message_id v s)
          (pending ++ (v.message_id, v) ∷ [])
          (mailbox_at-push_and_notify env m v.message_id v s pending h ∙ rw hit)
        ∙ rw hit (ap some (append_assoc pending ((v.message_id, v) ∷ []) _))
    | inr miss ↦
        mailbox_at-fan_out env ms v (push_and_notify env m v.message_id v s) pending
          (mailbox_at-push_and_notify env m v.message_id v s pending h ∙ rw miss)
        ∙ rw miss
  ]

  mailbox_at-counted :
      (env : Env) (j : ℕ) (e : QueueEntry) (s : Inner)
      → lookup j s.queues ≡ some e
      → mailbox_at q (counted env j e s) ≡ mailbox_at q s
  unfolding check_and_bump_rate_limit
  mailbox_at-counted env j e s found = grind (arith, lookup-insert)

  mailbox_at-advance_epoch :
      (j : ℕ) (kind : GroupSendKind) (s : Inner)
      → mailbox_at q (advance_epoch j kind s) ≡ mailbox_at q s
  unfolding advance_epoch advance
  mailbox_at-advance_epoch j (commit target) s = grind (arith, lookup-insert)
  mailbox_at-advance_epoch j application s = grind (arith, lookup-insert)

module _ (p : Primitives) (env : Env) (j tag : ℕ) (v : Envelope) (s : Inner) where
  -- A send to a mailbox that is accepted appends the message to it, and changes no other mailbox.
  pub send_to_mailbox_stores :
      (q : ℕ) (pending : List Pending)
      → (send_to_mailbox p env j tag v s).1 ≡ ok tt
      → mailbox_at q s ≡ some pending
      → mailbox_at q (send_to_mailbox p env j tag v s).0
        ≡ some (if j == q then pending ++ (v.message_id, v) ∷ [] else pending)
  send_to_mailbox_stores q pending h e =
      let a = Mail.accepted p env j tag v s h in
      rw a.result (
        mailbox_at-push_and_notify q env j v.message_id v
          (with_db (insert_pending p.codec j v) (counted env j a.entry s)) pending
          (mailbox_at-counted q env j a.entry s a.found ∙ e))

  -- A send to a group inbox that is accepted appends the message to each mailbox as often as the
  -- roster of the inbox names it, and changes no other mailbox. The depth of the mailbox is not
  -- looked at: one that is at `MAX_QUEUE_DEPTH` grows past it.
  pub fan_out_stores :
      (kind : GroupSendKind) (q : ℕ) (pending : List Pending)
      → (send_to_group_inbox p env j kind tag v s).1 ≡ ok tt
      → mailbox_at q s ≡ some pending
      → (roster : List ℕ) × (entry : QueueEntry) × (epoch : ℕ) × (lookup j s.queues ≡ some entry)
        × (entry.kind ≡ group_inbox epoch roster)
        × (mailbox_at q (send_to_group_inbox p env j kind tag v s).0
            ≡ some (pending ++ replicate (times q roster) (v.message_id, v)))
  unfolding deliver_to_group
  fan_out_stores kind q pending h e =
      let a = Group.accepted p env j kind tag v s h in
      let c = counted env j a.entry s in
      (
        a.roster,
        a.entry,
        a.epoch,
        a.found,
        a.is_inbox,
        rw a.result (
            mailbox_at-fan_out q env a.roster v _ pending (
              mailbox_at-advance_epoch q j kind
                (with_db (persist_group p.codec j kind (stored_targets c.queues a.roster) v) c)
              ∙ mailbox_at-counted q env j a.entry s a.found
              ∙ e)),
      )
