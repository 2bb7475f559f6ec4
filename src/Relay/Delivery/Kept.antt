-- ===== src/Relay/Delivery/Kept.antt =====
-- Messages in mailboxes over the histories of the relay.
use rosette.Prelude.{ℕ, List, none, some, ◌≡◌, All}
use rosette.Proto.Envelope.{Envelope}
use rosette.Proto.Wire.{ClientMessage, ServerMessage, ack}
use rosette.Relay.State.{Inner, Primitives, Env}
use rosette.Relay.Gate.{set_attestation_key}
use rosette.Relay.Queues.Create.{add_mailbox, add_group_inbox}
use rosette.Relay.Queues.Group.{deliver_to_group}
use rosette.Relay.Handle.Change.{
  Change, handle-Change, gate, mailbox_added, inbox_added, unchanged, limited, stored, fanned,
  subscription, acked,
}
use rosette.Relay.Handle.History.{History, Event, start, call, configure}
use rosette.Relay.Epochs.Calls.{subscribe-queues}
use rosette.Relay.Delivery.Holds.{
  Holds, Holds-push_and_notify, Holds-fan_out, Holds-advance_epoch, Holds-counted, Holds-ack,
  Holds-new_queue,
}

module _ (q mid : ℕ) (envelope : Envelope) where
  -- A message without its acknowledgement.
  abbrev NotAcked : ClientMessage → Type 0
  NotAcked (ack j m) = ¬ ((j ≡ q) × (m ≡ mid))
  NotAcked _ = Unit

  module _ (p : Primitives) (env : Env) where
    Change-Holds :
        {msg : ClientMessage} {reply : ServerMessage} (s s' : Inner)
        → Change p env s s' msg reply
        → NotAcked msg
        → Holds q mid envelope s
        → Holds q mid envelope s'
    unfolding deliver_to_group add_mailbox add_group_inbox
    Change-Holds s s' (gate k not_ok) a h = rw k.queues h
    Change-Holds s s' (mailbox_added t id k free same not_ok) a h =
        rw same (Holds-new_queue q mid envelope id _ t free (rw k.queues h))
    Change-Holds s s' (inbox_added solution token t id epoch roster k free same not_ok) a h =
        rw same (Holds-new_queue q mid envelope id _ t free (rw k.queues h))
    Change-Holds s s' (unchanged same not_ok) a h = rw same h
    Change-Holds s s' (limited j entry found same not_ok) a h =
        rw same (Holds-counted q mid envelope env j entry s found h)
    Change-Holds s s' (stored j tag v acc) a h = rw acc.result (
        Holds-push_and_notify q mid envelope env j v.message_id v _
          (Holds-counted q mid envelope env j acc.entry s acc.found h))
    Change-Holds s s' (fanned j tag kind v acc) a h = rw acc.result (
        Holds-fan_out q mid envelope env acc.roster v _ (
          Holds-advance_epoch q mid envelope j kind _
            (Holds-counted q mid envelope env j acc.entry s acc.found h)))
    Change-Holds s s' (subscription ids none same) a h = rw same h
    Change-Holds s s' (subscription ids (some tx) same) a h =
        rw (same, subscribe-queues env ids tx s) h
    Change-Holds s s' (acked j m same) a h = rw same (Holds-ack q mid envelope j m s a h)

  -- No event acknowledges the message.
  abbrev pub NoAck : List Event → Type 0
  NoAck = All (λ e. NotAcked e.message)

  -- Once a mailbox holds a message, it holds it after any history in which no call acknowledges that
  -- message id on that queue: no other call, of whomever, makes the relay lose or drop it.
  pub kept_until_acked :
      (p : Primitives) {s t : Inner} {events : List Event}
      → Holds q mid envelope s
      → NoAck events
      → History p s events t
      → Holds q mid envelope t
  unfolding set_attestation_key
  kept_until_acked p h n start = h
  kept_until_acked p h n (call {t = t} u e past run) =
      Change-Holds p e.env t u (handle-Change p e.env e.message e.push_tx t u e.reply run) n.0
        (kept_until_acked p h n.1 past)
  kept_until_acked p h n (configure key past) = kept_until_acked p h n past
