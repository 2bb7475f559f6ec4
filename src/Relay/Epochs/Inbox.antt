-- ===== src/Relay/Epochs/Inbox.antt =====
-- What the operations do to the group inboxes.
use rosette.Prelude.{
  ℕ, ◌+◌, ◌%◌, ◌^◌, List, [], ◌∷◌, Option, none, some, ◌≡◌, refl, ◌∙◌, arith, ◌==◌, if◌then◌else◌,
}
use rosette.Prelude.Map.{Map, lookup, insert, lookup-insert}
use rosette.Proto.Envelope.{Envelope}
use rosette.Proto.Wire.{GroupSendKind, commit, application}
use rosette.Relay.State.{Inner, QueueEntry, mailbox, group_inbox, Env}
use rosette.Relay.Limits.{check_and_bump_rate_limit}
use rosette.Relay.Queues.Push.{store, notify, push_and_notify}
use rosette.Relay.Queues.Group.{fan_out, advance, advance_epoch}
use rosette.Relay.Queues.Ack.{ack}
use rosette.Relay.Queues.Create.{add_mailbox, add_group_inbox}

-- What a group inbox keeps: send key, epoch, roster.
pub record Inbox : Type 0 where
  pub send_key : ℕ
  pub epoch : ℕ
  pub roster : List ℕ

abbrev pub as_inbox : Option QueueEntry → Option Inbox
as_inbox none = none
as_inbox (some e) = elim e.kind [
  | mailbox _ ↦ none
  | group_inbox epoch roster ↦
      some (record { send_key = e.send_key; epoch = epoch; roster = roster })
]

abbrev pub inbox_at : ℕ → Map QueueEntry → Option Inbox
inbox_at q queues = as_inbox (lookup q queues)

-- The next epoch, at a commit.
abbrev pub bumped : GroupSendKind → Inbox → Inbox
bumped (commit _) b = record b { epoch = (b.epoch + 1) % 2 ^ 64 }
bumped application b = b

module _ (q : ℕ) where
  -- A write of an entry with the inbox of the one that it replaces changes no inbox.
  pub inbox_at-insert :
      (j : ℕ) (e : QueueEntry) (m : Map QueueEntry)
      → as_inbox (some e) ≡ as_inbox (lookup j m)
      → inbox_at q (insert j e m) ≡ inbox_at q m
  inbox_at-insert j e m h = ground (arith, lookup-insert j q e m)

  pub inbox_at-store :
      (j mid : ℕ) (envelope : Envelope) (s : Inner)
      → inbox_at q (store j mid envelope s).queues ≡ inbox_at q s.queues
  unfolding store
  inbox_at-store j mid envelope s = grind (arith, lookup-insert)

  pub inbox_at-push_and_notify :
      (env : Env) (j mid : ℕ) (envelope : Envelope) (s : Inner)
      → inbox_at q (push_and_notify env j mid envelope s).queues ≡ inbox_at q s.queues
  unfolding push_and_notify notify
  inbox_at-push_and_notify env j mid envelope s = ground (arith, inbox_at-store j mid envelope s)

  pub inbox_at-fan_out :
      (env : Env) (members : List ℕ) (envelope : Envelope) (s : Inner)
      → inbox_at q (fan_out env members envelope s).queues ≡ inbox_at q s.queues
  unfolding fan_out
  inbox_at-fan_out env [] envelope s = refl
  inbox_at-fan_out env (m ∷ ms) envelope s =
      inbox_at-fan_out env ms envelope (push_and_notify env m envelope.message_id envelope s)
      ∙ inbox_at-push_and_notify env m envelope.message_id envelope s

  pub inbox_at-ack : (j mid : ℕ) (s : Inner) → inbox_at q (ack j mid s).queues ≡ inbox_at q s.queues
  unfolding ack
  inbox_at-ack j mid s = grind (arith, lookup-insert)

  pub inbox_at-advance_epoch :
      (j : ℕ) (kind : GroupSendKind) (s : Inner) (b : Inbox)
      → inbox_at j s.queues ≡ some b
      → inbox_at q (advance_epoch j kind s).queues
        ≡ (if j == q then some (bumped kind b) else inbox_at q s.queues)
  unfolding advance_epoch advance
  inbox_at-advance_epoch j kind s b h = grind (arith, lookup-insert)

  pub inbox_at-check_and_bump :
      (now : ℕ) (j : ℕ) (e : QueueEntry) (m : Map QueueEntry)
      → lookup j m ≡ some e
      → inbox_at q (insert j (check_and_bump_rate_limit now e).0 m) ≡ inbox_at q m
  unfolding check_and_bump_rate_limit
  inbox_at-check_and_bump now j e m h = grind (arith, lookup-insert)

  pub inbox_at-add_mailbox :
      (env : Env) (id : ℕ) (t : Inner)
      → lookup id t.queues ≡ none
      → inbox_at q (add_mailbox env id t).queues ≡ inbox_at q t.queues
  unfolding add_mailbox
  inbox_at-add_mailbox env id t free = grind (arith, lookup-insert)

  pub inbox_at-add_group_inbox :
      (env : Env) (id epoch : ℕ) (roster : List ℕ) (t : Inner)
      → inbox_at q (add_group_inbox env id epoch roster t).queues ≡ (
          if id == q
          then some (record { send_key = env.send_key_draw; epoch = epoch; roster = roster })
          else inbox_at q t.queues)
  unfolding add_group_inbox
  inbox_at-add_group_inbox env id epoch roster t = grind (arith, lookup-insert)
