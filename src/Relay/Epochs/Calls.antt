-- ===== src/Relay/Epochs/Calls.antt =====
-- What one call does to the group inboxes.
use rosette.Prelude.{
  ℕ, ◌+◌, ◌%◌, ◌^◌, List, [], ◌∷◌, none, some, ◌≡◌, ◌≢◌, refl, ◌∙◌, ap, arith, ◌==◌, if◌then◌else◌,
  inl, inr, Bool-cases,
}
use rosette.Prelude.Map.{lookup}
use rosette.Proto.Envelope.{Envelope}
use rosette.Proto.Wire.{
  GroupSendKind, commit, application, ClientMessage, ServerMessage, send_to_group_inbox,
}
use rosette.Relay.State.{Inner, Env, Primitives}
use rosette.Relay.Limits.{counted}
use rosette.Relay.Queues.Group.Accepted.{Accepted}
use rosette.Relay.Queues.Group.{deliver_to_group, persist_group, stored_targets}
use rosette.Relay.Queues.Create.{add_group_inbox}
use rosette.Relay.Queues.Subscribe
use rosette.Relay.Queues.Tables.{with_db}
use rosette.Relay.Handle.Change.{
  Change, gate, mailbox_added, inbox_added, unchanged, limited, stored, fanned, subscription, acked,
}
use rosette.Relay.Epochs.Inbox.{
  Inbox, inbox_at, bumped, inbox_at-push_and_notify, inbox_at-fan_out, inbox_at-ack,
  inbox_at-advance_epoch, inbox_at-check_and_bump, inbox_at-add_mailbox, inbox_at-add_group_inbox,
}

-- The epoch of a commit to the inbox `q` that a call has accepted.
abbrev pub accepted_commit : ℕ → ClientMessage → ServerMessage → List ℕ
accepted_commit q (send_to_group_inbox j (commit target) tag envelope) ServerMessage.ok =
    if j == q then target ∷ [] else []
accepted_commit q _ _ = []

-- An inbox after a call: as it was, or one epoch on, with a commit to the old epoch accepted.
pub data Advances (q : ℕ) (b : Inbox) (s' : Inner) (commits : List ℕ) : Type 0 where
  stays : commits ≡ [] → inbox_at q s'.queues ≡ some b → Advances q b s' commits
  advances :
      commits ≡ b.epoch ∷ []
      → inbox_at q s'.queues ≡ some (record b { epoch = (b.epoch + 1) % 2 ^ 64 })
      → Advances q b s' commits

accepted_commit-not_ok :
    (q : ℕ) (msg : ClientMessage) (reply : ServerMessage)
    → reply ≢ ServerMessage.ok
    → accepted_commit q msg reply ≡ []
accepted_commit-not_ok q (send_to_group_inbox j (commit target) tag envelope) ServerMessage.ok h =
    absurd (h refl)
accepted_commit-not_ok q _ _ h = refl

pub subscribe-queues :
    (env : Env) (ids : List ℕ) (tx : ℕ) (s : Inner)
    → (Subscribe.subscribe env ids tx s).queues ≡ s.queues
unfolding Subscribe.subscribe
subscribe-queues env ids tx s = ground arith

add_group_inbox-keeps :
    (q : ℕ) (b : Inbox) (env : Env) (id epoch : ℕ) (roster : List ℕ) (t : Inner)
    → lookup id t.queues ≡ none
    → inbox_at q t.queues ≡ some b
    → inbox_at q (add_group_inbox env id epoch roster t).queues ≡ some b
add_group_inbox-keeps q b env id epoch roster t free h =
    ground (arith, inbox_at-add_group_inbox q env id epoch roster t)

-- The inbox that an accepted send goes to.
abbrev pub target_inbox :
    {p : Primitives} {env : Env} {j tag : ℕ} {kind : GroupSendKind} {envelope : Envelope}
    {s s' : Inner}
    → Accepted p env j kind tag envelope s s'
    → Inbox
target_inbox a = record { send_key = a.entry.send_key; epoch = a.epoch; roster = a.roster }

module _ (p : Primitives) (env : Env) (q : ℕ) where
  pub own_inbox :
      {j tag : ℕ} {kind : GroupSendKind} {envelope : Envelope} {s s' : Inner}
      (a : Accepted p env j kind tag envelope s s')
      → inbox_at j s.queues ≡ some (target_inbox a)
  own_inbox a = ground arith

  -- After an accepted send to a group inbox every inbox is as before, but that of a commit.
  pub inbox_at-fanned :
      {j tag : ℕ} {kind : GroupSendKind} {envelope : Envelope} (s s' : Inner)
      (a : Accepted p env j kind tag envelope s s')
      → inbox_at q s'.queues
        ≡ (if j == q then some (bumped kind (target_inbox a)) else inbox_at q s.queues)
  unfolding deliver_to_group
  inbox_at-fanned {j} {tag} {kind} {envelope} s s' a =
      let c : Inner = counted env j a.entry s in
      rw a.result (
        inbox_at-fan_out q env a.roster envelope _
        ∙ inbox_at-advance_epoch q j kind
            (with_db (persist_group p.codec j kind (stored_targets c.queues a.roster) envelope) c)
            (target_inbox a)
            (inbox_at-check_and_bump j env.instant j a.entry s.queues a.found ∙ own_inbox a)
        ∙ ap (λ o. if j == q then some (bumped kind (target_inbox a)) else o)
            (inbox_at-check_and_bump q env.instant j a.entry s.queues a.found))

module _ (p : Primitives) (env : Env) (q : ℕ) (b : Inbox) where
  -- Every call leaves an inbox as it was, or is an accepted commit to its epoch.
  pub Change-Advances :
      {msg : ClientMessage} {reply : ServerMessage} (s s' : Inner)
      → Change p env s s' msg reply
      → inbox_at q s.queues ≡ some b
      → Advances q b s' (accepted_commit q msg reply)
  Change-Advances {msg} {reply} s s' (gate k not_ok) h =
      stays (accepted_commit-not_ok q msg reply not_ok) (rw k.queues h)
  Change-Advances {msg} {reply} s s' (mailbox_added t id k free same not_ok) h =
      stays (accepted_commit-not_ok q msg reply not_ok)
        (rw same (inbox_at-add_mailbox q env id t free ∙ rw k.queues h))
  Change-Advances {msg} {reply} s s'
        (inbox_added solution token t id epoch roster k free same not_ok) h =
      stays (accepted_commit-not_ok q msg reply not_ok)
        (rw same (add_group_inbox-keeps q b env id epoch roster t free (rw k.queues h)))
  Change-Advances {msg} {reply} s s' (unchanged same not_ok) h =
      stays (accepted_commit-not_ok q msg reply not_ok) (rw same h)
  Change-Advances {msg} {reply} s s' (limited j entry found same not_ok) h =
      stays (accepted_commit-not_ok q msg reply not_ok)
        (rw same (inbox_at-check_and_bump q env.instant j entry s.queues found ∙ h))
  Change-Advances s s' (stored j tag envelope a) h = stays refl (
      rw a.result (
        inbox_at-push_and_notify q env j envelope.message_id envelope _
        ∙ inbox_at-check_and_bump q env.instant j a.entry s.queues a.found
        ∙ h))
  Change-Advances s s' (fanned j tag application envelope a) h =
      stays refl (inbox_at-fanned p env q s s' a ∙ ground (arith, own_inbox p env q a))
  Change-Advances s s' (fanned j tag (commit target) envelope a) h = elim (Bool-cases (j == q)) [
    | inr differ ↦ stays (rw differ) (inbox_at-fanned p env q s s' a ∙ rw differ h)
    | inl same ↦
        advances (ground (arith, own_inbox p env q a, a.in_epoch))
          (inbox_at-fanned p env q s s' a ∙ ground (arith, own_inbox p env q a))
  ]
  Change-Advances s s' (subscription ids none same) h = stays refl (rw same h)
  Change-Advances s s' (subscription ids (some tx) same) h =
      stays refl (rw (same, subscribe-queues env ids tx s) h)
  Change-Advances s s' (acked j mid same) h = stays refl (rw same (inbox_at-ack q j mid s ∙ h))
