-- ===== src/Relay/Handle/Gate.antt =====
-- What a call does to the challenges and the tokens: one constructor for each way to change them.
use rosette.Prelude.{
  ℕ, List, [], ◌∷◌, Option, none, some, ◌≡◌, refl, arith, subst, Option-cases, inl, inr,
}
use rosette.Proto.Error.{Result, ok, err, Result-cases}
use rosette.Proto.Envelope.{Envelope}
use rosette.Proto.Pow.{PowSolution}
use rosette.Proto.Attestation.{AttestationToken}
use rosette.Proto.Wire.{
  GroupSendKind, ClientMessage, ServerMessage, send_to_mailbox, send_to_group_inbox, subscribe, ack,
  request_pow_challenge, create_mailbox, create_group_inbox,
}
use rosette.Relay.State.{Inner, QueueEntry, Primitives, Env}
use rosette.Relay.Limits.{counted}
use rosette.Relay.Gate.{issue_pow_challenge}
use rosette.Relay.Queues.Create
use rosette.Relay.Queues.Create.{admit, with_fresh_id, add_mailbox, add_group_inbox}
use rosette.Relay.Queues.Subscribe
use rosette.Relay.Queues.Push.{store, notify, push_and_notify}
use rosette.Relay.Queues.Mailbox
use rosette.Relay.Queues.Mailbox.{send_limited, store_in_mailbox}
use rosette.Relay.Queues.Group
use rosette.Relay.Queues.Group.{
  send_checked, deliver_to_group, advance_epoch, fan_out, persist_group, stored_targets,
}
use rosette.Relay.Queues.Ack
use rosette.Relay.Queues.Tables.{with_db, insert_pending}
use rosette.Relay.Queues.Mailbox.Accepted as Mail
use rosette.Relay.Queues.Group.Accepted as Roster
use rosette.Relay.Handle.{handle, created, sent, subscribed}

-- The fields of the gate are the same.
pub record KeepsGate (s s' : Inner) : Type 0 where
  pub outstanding : s'.outstanding_challenges ≡ s.outstanding_challenges
  pub order : s'.challenge_order ≡ s.challenge_order
  pub spent : s'.spent_tokens ≡ s.spent_tokens
  pub key : s'.attestation_key ≡ s.attestation_key

push_and_notify-KeepsGate :
    (env : Env) (q mid : ℕ) (envelope : Envelope) (s : Inner)
    → KeepsGate s (push_and_notify env q mid envelope s)
unfolding push_and_notify store notify
push_and_notify-KeepsGate env q mid envelope s = ground arith

fan_out-KeepsGate :
    (env : Env) (members : List ℕ) (envelope : Envelope) (s : Inner)
    → KeepsGate s (fan_out env members envelope s)
unfolding fan_out
fan_out-KeepsGate env [] envelope s = record {
  outstanding = refl;
  order = refl;
  spent = refl;
  key = refl;
}
fan_out-KeepsGate env (m ∷ ms) envelope s =
    let a = push_and_notify-KeepsGate env m envelope.message_id envelope s in
    let b =
      fan_out-KeepsGate env ms envelope (push_and_notify env m envelope.message_id envelope s) in
    ground (arith, a.outstanding, a.order, a.spent, a.key, b.outstanding, b.order, b.spent, b.key)

advance_epoch-KeepsGate :
    (q : ℕ) (kind : GroupSendKind) (s : Inner) → KeepsGate s (advance_epoch q kind s)
unfolding advance_epoch
advance_epoch-KeepsGate q kind s = ground arith

sent_state :
    (r : Inner × Result (Unit {0})) (s' : Inner) (reply : ServerMessage)
    → some (sent r) ≡ some (s', reply)
    → r.0 ≡ s'
sent_state (t, ok done) s' reply h = ground arith
sent_state (t, err code) s' reply h = ground arith

module _ (p : Primitives) (env : Env) where
  limited-KeepsGate :
      (q : ℕ) (entry : QueueEntry) {s s' : Inner} → s' ≡ counted env q entry s → KeepsGate s s'
  limited-KeepsGate q entry same =
      rw same (record { outstanding = refl; order = refl; spent = refl; key = refl })

  send_to_mailbox-KeepsGate :
      (q tag : ℕ) (envelope : Envelope) (s : Inner)
      → KeepsGate s (Mailbox.send_to_mailbox p env q tag envelope s).0
  send_to_mailbox-KeepsGate q tag envelope s =
      elim (Result-cases (Mailbox.send_to_mailbox p env q tag envelope s).1) [
        | inl (done, e) ↦
            let a = Mail.accepted p env q tag envelope s e in
            let k =
              push_and_notify-KeepsGate env q envelope.message_id envelope
                (with_db (insert_pending p.codec q envelope) (counted env q a.entry s)) in
            rw a.result (ground (arith, k.outstanding, k.order, k.spent, k.key))
        | inr (code, e) ↦ elim (Mail.rejected p env q tag envelope s code e) [
          | inl same ↦ ground (arith, same)
          | inr (entry, found, same) ↦ limited-KeepsGate q entry same
        ]
      ]

  send_to_group_inbox-KeepsGate :
      (q tag : ℕ) (kind : GroupSendKind) (envelope : Envelope) (s : Inner)
      → KeepsGate s (Group.send_to_group_inbox p env q kind tag envelope s).0
  unfolding deliver_to_group
  send_to_group_inbox-KeepsGate q tag kind envelope s =
      elim (Result-cases (Group.send_to_group_inbox p env q kind tag envelope s).1) [
        | inl (done, e) ↦
            let a = Roster.accepted p env q kind tag envelope s e in
            let c =
              with_db
                (persist_group p.codec q kind
                  (stored_targets (counted env q a.entry s).queues a.roster) envelope)
                (counted env q a.entry s) in
            let b = advance_epoch-KeepsGate q kind c in
            let k = fan_out-KeepsGate env a.roster envelope (advance_epoch q kind c) in
            rw a.result (
              ground (
                arith, k.outstanding, k.order, k.spent, k.key, b.outstanding, b.order, b.spent,
                b.key,
              ))
        | inr (code, e) ↦ elim (Roster.rejected p env q kind tag envelope s code e) [
          | inl same ↦ ground (arith, same)
          | inr (entry, found, same) ↦ limited-KeepsGate q entry same
        ]
      ]

  subscribed-KeepsGate :
      (ids : List ℕ) (tx : Option ℕ) (s : Inner) → KeepsGate s (subscribed env ids tx s)
  unfolding Subscribe.subscribe
  subscribed-KeepsGate ids none s = record {
    outstanding = refl;
    order = refl;
    spent = refl;
    key = refl;
  }
  subscribed-KeepsGate ids (some tx) s = ground arith

  ack-KeepsGate : (q mid : ℕ) (s : Inner) → KeepsGate s (Ack.ack q mid s)
  unfolding Ack.ack
  ack-KeepsGate q mid s = ground arith

  pub add_mailbox-KeepsGate : (id : ℕ) (s : Inner) → KeepsGate s (add_mailbox env id s)
  unfolding add_mailbox
  add_mailbox-KeepsGate id s = record { outstanding = refl; order = refl; spent = refl; key = refl }

  pub add_group_inbox-KeepsGate :
      (epoch : ℕ) (roster : List ℕ) (id : ℕ) (s : Inner)
      → KeepsGate s (add_group_inbox env id epoch roster s)
  unfolding add_group_inbox
  add_group_inbox-KeepsGate epoch roster id s = record {
    outstanding = refl;
    order = refl;
    spent = refl;
    key = refl;
  }

  pub created-KeepsGate :
      (add : ℕ → Inner → Inner)
      → ((id : ℕ) (s : Inner) → KeepsGate s (add id s))
      → (r : Inner × Result (Unit {0})) (s' : Inner) (reply : ServerMessage)
      → created (with_fresh_id env add r) ≡ some (s', reply)
      → KeepsGate r.0 s'
  created-KeepsGate add keeps (t, err code) s' reply h = ground arith
  created-KeepsGate add keeps (t, ok done) s' reply h =
      elim (Option-cases (Create.fresh_queue_id t.queues env.id_draws)) [
        | inl e ↦ absurd (ground arith)
        | inr (id, e) ↦
            let same : add id t ≡ s' = ground arith in subst (KeepsGate t) same (keeps id t)
      ]

  pub data GateChange (s s' : Inner) (msg : ClientMessage) : Type 0 where
    kept : KeepsGate s s' → GateChange s s' msg
    issued : s' ≡ (issue_pow_challenge env s).0 → GateChange s s' msg
    admitted :
        (solution : PowSolution) (token : Option AttestationToken)
        → KeepsGate (admit p env solution token s).0 s'
        → GateChange s s' msg

  -- Every call keeps the gate, issues a challenge, or makes the checks of a creation.
  pub handle-GateChange :
      (msg : ClientMessage) (tx : Option ℕ) (s s' : Inner) (reply : ServerMessage)
      → handle p env msg tx s ≡ some (s', reply)
      → GateChange s s' msg
  unfolding handle Create.create_mailbox Create.create_group_inbox
  handle-GateChange (send_to_mailbox q tag envelope) tx s s' reply h =
      kept
        (subst (KeepsGate s) (sent_state _ s' reply h) (send_to_mailbox-KeepsGate q tag envelope s))
  handle-GateChange (send_to_group_inbox q kind tag envelope) tx s s' reply h = kept (
      subst (KeepsGate s) (sent_state _ s' reply h)
        (send_to_group_inbox-KeepsGate q tag kind envelope s))
  handle-GateChange (subscribe ids) tx s s' reply h =
      kept (subst (KeepsGate s) (ground arith) (subscribed-KeepsGate ids tx s))
  handle-GateChange (ack q mid) tx s s' reply h =
      kept (subst (KeepsGate s) (ground arith) (ack-KeepsGate q mid s))
  handle-GateChange request_pow_challenge tx s s' reply h = issued (ground arith)
  handle-GateChange (create_mailbox solution token) tx s s' reply h = admitted solution token (
      created-KeepsGate (add_mailbox env) add_mailbox-KeepsGate (admit p env solution token s) s'
        reply h)
  handle-GateChange (create_group_inbox solution epoch roster token) tx s s' reply h =
      admitted solution token (
        created-KeepsGate (λ id. add_group_inbox env id epoch roster)
          (add_group_inbox-KeepsGate epoch roster) (admit p env solution token s) s' reply h)
