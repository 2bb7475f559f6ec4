-- ===== src/Relay/Handle/Change.antt =====
-- The ways in which a call changes the relay: one constructor for each outcome of `handle`.
use rosette.Prelude.{ℕ, List, Option, none, some, ◌≡◌, ◌≢◌, arith, ◌∙◌, subst, inl, inr}
use rosette.Prelude.Map.{lookup}
use rosette.Proto.Error.{Result, ok, err, Result-cases, RejectionCode}
use rosette.Proto.Envelope.{Envelope}
use rosette.Proto.Pow.{PowSolution}
use rosette.Proto.Attestation.{AttestationToken}
use rosette.Proto.Wire.{
  GroupSendKind, ClientMessage, ServerMessage, send_to_mailbox, send_to_group_inbox, subscribe, ack,
  request_pow_challenge, create_mailbox, create_group_inbox, error,
}
use rosette.Relay.State.{Inner, QueueEntry, Primitives, Env}
use rosette.Relay.Gate.Frame.{KeepsQueues, issue_pow_challenge-KeepsQueues}
use rosette.Relay.Queues
use rosette.Relay.Queues.Create.{add_mailbox, add_group_inbox, admit, with_fresh_id}
use rosette.Relay.Queues.Create.Created.{refused, added, with_fresh_id-Outcome, admit-KeepsQueues}
use rosette.Relay.Queues.Mailbox.Accepted as Mail
use rosette.Relay.Queues.Group.Accepted as Group
use rosette.Relay.Limits.{counted}
use rosette.Relay.Handle.{handle, created, sent, subscribed}

module _ (p : Primitives) (env : Env) where
  pub data Change (s s' : Inner) : ClientMessage → ServerMessage → Type 0 where
    -- a challenge is issued, or a creation refused
    gate :
        {msg : ClientMessage} {reply : ServerMessage}
        → KeepsQueues s s'
        → reply ≢ ServerMessage.ok
        → Change s s' msg reply
    mailbox_added :
        {msg : ClientMessage} {reply : ServerMessage} (t : Inner) (id : ℕ)
        → KeepsQueues s t
        → lookup id t.queues ≡ none
        → s' ≡ add_mailbox env id t
        → reply ≢ ServerMessage.ok
        → Change s s' msg reply
    inbox_added :
        {reply : ServerMessage} (solution : PowSolution) (token : Option AttestationToken)
        (t : Inner) (id epoch : ℕ) (roster : List ℕ)
        → KeepsQueues s t
        → lookup id t.queues ≡ none
        → s' ≡ add_group_inbox env id epoch roster t
        → reply ≢ ServerMessage.ok
        → Change s s' (create_group_inbox solution epoch roster token) reply
    -- a send is rejected, before or after it is counted against the rate limit
    unchanged :
        {msg : ClientMessage} {reply : ServerMessage}
        → s' ≡ s
        → reply ≢ ServerMessage.ok
        → Change s s' msg reply
    limited :
        {msg : ClientMessage} {reply : ServerMessage} (q : ℕ) (entry : QueueEntry)
        → lookup q s.queues ≡ some entry
        → s' ≡ counted env q entry s
        → reply ≢ ServerMessage.ok
        → Change s s' msg reply
    stored :
        (q tag : ℕ) (envelope : Envelope)
        → Mail.Accepted p env q tag envelope s s'
        → Change s s' (send_to_mailbox q tag envelope) ServerMessage.ok
    fanned :
        (q tag : ℕ) (kind : GroupSendKind) (envelope : Envelope)
        → Group.Accepted p env q kind tag envelope s s'
        → Change s s' (send_to_group_inbox q kind tag envelope) ServerMessage.ok
    subscription :
        (queue_ids : List ℕ) (tx : Option ℕ)
        → s' ≡ subscribed env queue_ids tx s
        → Change s s' (subscribe queue_ids) ServerMessage.ok
    acked : (q mid : ℕ) → s' ≡ Queues.Ack.ack q mid s → Change s s' (ack q mid) ServerMessage.ok

  sent_err :
      (r : Inner × Result (Unit {0})) (s' : Inner) (reply : ServerMessage) (code : RejectionCode)
      → some (sent r) ≡ some (s', reply)
      → r.1 ≡ err code
      → (reply ≡ error code) × (s' ≡ r.0)
  sent_err (t, ok _) s' reply code h e = cc
  sent_err (t, err c) s' reply code h e = ground arith

  sent_ok :
      (r : Inner × Result (Unit {0})) (s' : Inner) (reply : ServerMessage)
      → some (sent r) ≡ some (s', reply)
      → r.1 ≡ ok tt
      → (ServerMessage.ok ≡ reply) × (r.0 ≡ s')
  sent_ok (t, err _) s' reply h e = cc
  sent_ok (t, ok c) s' reply h e = ground arith

  mailbox-Change :
      (q tag : ℕ) (envelope : Envelope) (s s' : Inner) (reply : ServerMessage)
      → some (sent (Queues.Mailbox.send_to_mailbox p env q tag envelope s)) ≡ some (s', reply)
      → Change s s' (send_to_mailbox q tag envelope) reply
  mailbox-Change q tag envelope s s' reply h =
      elim (Result-cases (Queues.Mailbox.send_to_mailbox p env q tag envelope s).1) [
        | inl (done, e) ↦
            let (er, es) =
              sent_ok (Queues.Mailbox.send_to_mailbox p env q tag envelope s) s' reply h e in
            subst (λ r. Change s s' (send_to_mailbox q tag envelope) r) er
              (stored q tag envelope (
                subst (Mail.Accepted p env q tag envelope s) es
                  (Mail.accepted p env q tag envelope s e)))
        | inr (code, e) ↦
            let (er, es) =
              sent_err (Queues.Mailbox.send_to_mailbox p env q tag envelope s) s' reply code h e in
            elim (Mail.rejected p env q tag envelope s code e) [
              | inl same ↦ unchanged (es ∙ same) (λ x. cc)
              | inr (entry, found, c) ↦ limited q entry found (es ∙ c) (λ x. cc)
            ]
      ]

  group-Change :
      (q tag : ℕ) (kind : GroupSendKind) (envelope : Envelope) (s s' : Inner)
      (reply : ServerMessage)
      → some (sent (Queues.Group.send_to_group_inbox p env q kind tag envelope s))
        ≡ some (s', reply)
      → Change s s' (send_to_group_inbox q kind tag envelope) reply
  group-Change q tag kind envelope s s' reply h =
      elim (Result-cases (Queues.Group.send_to_group_inbox p env q kind tag envelope s).1) [
        | inl (done, e) ↦
            let (er, es) =
              sent_ok (Queues.Group.send_to_group_inbox p env q kind tag envelope s) s' reply h e in
            subst (λ r. Change s s' (send_to_group_inbox q kind tag envelope) r) er
              (fanned q tag kind envelope (
                subst (Group.Accepted p env q kind tag envelope s) es
                  (Group.accepted p env q kind tag envelope s e)))
        | inr (code, e) ↦
            let (er, es) =
              sent_err (Queues.Group.send_to_group_inbox p env q kind tag envelope s) s' reply code
                h e in
            elim (Group.rejected p env q kind tag envelope s code e) [
              | inl same ↦ unchanged (es ∙ same) (λ x. cc)
              | inr (entry, found, c) ↦ limited q entry found (es ∙ c) (λ x. cc)
            ]
      ]

  created_cases :
      (o : Option (Inner × Result (ℕ × ℕ))) (s' : Inner) (reply : ServerMessage)
      → created o ≡ some (s', reply)
      → (res : Result (ℕ × ℕ)) × (o ≡ some (s', res)) × (reply ≢ ServerMessage.ok)
  created_cases none s' reply h = cc
  created_cases (some (t, ok (id, key))) s' reply h = (ok (id, key), ground arith, λ x. cc)
  created_cases (some (t, err code)) s' reply h = (err code, ground arith, λ x. cc)

  pub handle-Change :
      (msg : ClientMessage) (tx : Option ℕ) (s s' : Inner) (reply : ServerMessage)
      → handle p env msg tx s ≡ some (s', reply)
      → Change s s' msg reply
  unfolding handle
  handle-Change (send_to_mailbox q tag envelope) tx s s' reply h =
      mailbox-Change q tag envelope s s' reply h
  handle-Change (send_to_group_inbox q kind tag envelope) tx s s' reply h =
      group-Change q tag kind envelope s s' reply h
  handle-Change (subscribe queue_ids) tx s s' reply h =
      subst (λ r. Change s s' (subscribe queue_ids) r) (ground arith)
        (subscription queue_ids tx (ground arith))
  handle-Change (ack q mid) tx s s' reply h =
      subst (λ r. Change s s' (ack q mid) r) (ground arith) (acked q mid (ground arith))
  handle-Change request_pow_challenge tx s s' reply h =
      gate (subst (KeepsQueues s) (ground arith) (issue_pow_challenge-KeepsQueues env s)) (λ x. cc)
  handle-Change (create_mailbox solution token) tx s s' reply h =
      let (res, e, not_ok) =
        created_cases (Queues.Create.create_mailbox p env solution token s) s' reply h in
      elim (with_fresh_id-Outcome env (add_mailbox env) s s' res (admit p env solution token s)
        (admit-KeepsQueues p env solution token s) (unfold Queues.Create.create_mailbox in e)) [
          | refused code r k ↦ gate k not_ok
          | added t id k free same r ↦ mailbox_added t id k free same not_ok
        ]
  handle-Change (create_group_inbox solution epoch roster token) tx s s' reply h =
      let (res, e, not_ok) =
        created_cases (Queues.Create.create_group_inbox p env solution epoch roster token s) s'
          reply h in
      elim (with_fresh_id-Outcome env (λ id. add_group_inbox env id epoch roster) s s' res
        (admit p env solution token s) (admit-KeepsQueues p env solution token s)
        (unfold Queues.Create.create_group_inbox in e)) [
          | refused code r k ↦ gate k not_ok
          | added t id k free same r ↦
              inbox_added solution token t id epoch roster k free same not_ok
        ]
