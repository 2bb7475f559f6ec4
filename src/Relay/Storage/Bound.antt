-- ===== src/Relay/Storage/Bound.antt =====
-- The storage bound over histories.
use rosette.Prelude.{
  ℕ, ◌^◌, ◌<◌, ◌≤◌, List, Option, none, some, ◌≡◌, ◌∙◌, sym, arith, length, All, Bool-cases, inl,
  inr, ◌==◌,
}
use rosette.Proto.Limits.{max_storage_bytes}
use rosette.Proto.Envelope.{Envelope}
use rosette.Proto.Wire.{
  ClientMessage, ServerMessage, GroupSendKind, commit, application, create_group_inbox,
}
use rosette.Relay.State.{Inner, Primitives, Env}
use rosette.Relay.Limits.{counted}
use rosette.Relay.Gate.{set_attestation_key}
use rosette.Relay.Gate.Frame.{KeepsQueues}
use rosette.Relay.Queues.Mailbox.Accepted as Mail
use rosette.Relay.Queues.Group.Accepted as Group
use rosette.Relay.Queues.Group.{deliver_to_group, advance_epoch, persist_group, stored_targets}
use rosette.Relay.Queues.Push.{size}
use rosette.Relay.Queues.Create.{add_mailbox, add_group_inbox}
use rosette.Relay.Queues.Subscribe
use rosette.Relay.Handle.Change.{
  Change, handle-Change, gate, mailbox_added, inbox_added, unchanged, limited, stored, fanned,
  subscription, acked,
}
use rosette.Relay.Handle.History.{History, Event, start, call, configure}
use rosette.Relay.Epochs.Calls.{subscribe-queues, own_inbox, inbox_at-fanned, target_inbox}
use rosette.Relay.Epochs.Inbox.{
  Inbox, inbox_at, bumped, inbox_at-push_and_notify, inbox_at-check_and_bump, inbox_at-add_mailbox,
  inbox_at-add_group_inbox, inbox_at-ack,
}
use rosette.Relay.Queues.Tables.{with_db, insert_pending}
use rosette.Relay.Storage.Account.{
  IsExact, room_for, stored_bytes-counted, push_and_notify-IsExact, fan_out-IsExact,
  advance_epoch-IsExact, ack-IsExact, add_mailbox-IsExact, add_group_inbox-IsExact,
}

-- The rosters of a relay and of a message: below 2^48, so that the bytes of a fan-out fit a `u64`.
-- (A frame that the relay reads has at most 4096 members.)
abbrev pub max_roster : ℕ
max_roster = 2 ^ 48

abbrev pub RosterFits : Option Inbox → Type 0
RosterFits none = Unit
RosterFits (some b) = length b.roster < max_roster

abbrev pub MessageFits : ClientMessage → Type 0
MessageFits (create_group_inbox solution epoch roster token) = length roster < max_roster
MessageFits _ = Unit

-- The count is exact and within the bound, and the rosters fit.
pub record IsBounded (s : Inner) : Type 0 where
  pub exact : IsExact s
  pub bounded : s.storage_bytes_used ≤ max_storage_bytes
  pub rosters : (q : ℕ) → RosterFits (inbox_at q s.queues)

same_queues-IsBounded :
    {s s' : Inner}
    → s'.queues ≡ s.queues
    → s'.storage_bytes_used ≡ s.storage_bytes_used
    → IsBounded s
    → IsBounded s'
same_queues-IsBounded e u b = record {
  exact = ground (arith, b.exact);
  bounded = rw u b.bounded;
  rosters = λ q. rw e (b.rosters q);
}

storage-advance_epoch :
    (q : ℕ) (kind : GroupSendKind) (s : Inner)
    → (advance_epoch q kind s).storage_bytes_used ≡ s.storage_bytes_used
unfolding advance_epoch
storage-advance_epoch q kind s = ground arith

KeepsQueues-IsBounded : {s s' : Inner} → KeepsQueues s s' → IsBounded s → IsBounded s'
KeepsQueues-IsBounded k b = same_queues-IsBounded k.queues k.storage b

RosterFits-bumped :
    (kind : GroupSendKind) (b : Inbox) → RosterFits (some b) → RosterFits (some (bumped kind b))
RosterFits-bumped application b h = h
RosterFits-bumped (commit target) b h = h

module _ (p : Primitives) (env : Env) where
  stored-IsBounded :
      {q tag : ℕ} {envelope : Envelope} (s s' : Inner)
      → Mail.Accepted p env q tag envelope s s'
      → IsBounded s
      → IsBounded s'
  stored-IsBounded {q} {tag} {envelope} s s' a b =
      let c : Inner = with_db (insert_pending p.codec q envelope) (counted env q a.entry s) in
      let exact : IsExact c = b.exact ∙ sym (stored_bytes-counted env q a.entry s a.found) in
      let room =
        room_for (counted env q a.entry s) (size envelope) 1 a.small (omega arith) a.room in
      let (exact', le) =
        push_and_notify-IsExact q envelope.message_id envelope env c exact (omega arith) in
      record {
        exact = rw a.result exact';
        bounded = rw a.result (omega arith);
        rosters = λ i.
            rw
              (
                a.result,
                inbox_at-push_and_notify i env q envelope.message_id envelope c,
                inbox_at-check_and_bump i env.instant q a.entry s.queues a.found,
              )
              (b.rosters i);
      }

  fanned-IsBounded :
      {q tag : ℕ} {kind : GroupSendKind} {envelope : Envelope} (s s' : Inner)
      → Group.Accepted p env q kind tag envelope s s'
      → IsBounded s
      → IsBounded s'
  unfolding deliver_to_group
  fanned-IsBounded {q} {tag} {kind} {envelope} s s' a b =
      let c : Inner =
        with_db
          (persist_group p.codec q kind (stored_targets (counted env q a.entry s).queues a.roster)
            envelope)
          (counted env q a.entry s) in
      let exact : IsExact c = b.exact ∙ sym (stored_bytes-counted env q a.entry s a.found) in
      let fits = b.rosters q in
      let own = own_inbox p env q a in
      let small : length a.roster < max_roster = ground (arith, own) in
      let room = room_for s (size envelope) (length a.roster) a.small small a.room in
      let used = storage-advance_epoch q kind c in
      let (exact', le) =
        fan_out-IsExact env a.roster envelope (advance_epoch q kind c)
          (advance_epoch-IsExact q kind c exact) (omega arith) in
      record {
        exact = rw a.result exact';
        bounded = rw a.result (omega arith);
        rosters = λ i. rw (inbox_at-fanned p env i s s' a) (elim (Bool-cases (q == i)) [
          | inl same ↦ rw same (RosterFits-bumped kind (target_inbox a) small)
          | inr differ ↦ rw differ (b.rosters i)
        ]);
      }

  Change-IsBounded :
      {msg : ClientMessage} {reply : ServerMessage} (s s' : Inner)
      → Change p env s s' msg reply
      → MessageFits msg
      → IsBounded s
      → IsBounded s'
  Change-IsBounded s s' (gate k not_ok) m b = KeepsQueues-IsBounded k b
  Change-IsBounded s s' (mailbox_added t id k free same not_ok) m b =
      let b' = KeepsQueues-IsBounded k b in
      record {
        exact = rw same (add_mailbox-IsExact env id t free b'.exact);
        bounded = rw same (unfold add_mailbox in b'.bounded);
        rosters = λ i. rw (same, inbox_at-add_mailbox i env id t free) (b'.rosters i);
      }
  Change-IsBounded s s' (inbox_added solution token t id epoch roster k free same not_ok) m b =
      let b' = KeepsQueues-IsBounded k b in
      record {
        exact = rw same (add_group_inbox-IsExact env id epoch roster t free b'.exact);
        bounded = rw same (unfold add_group_inbox in b'.bounded);
        rosters = λ i.
            rw (same, inbox_at-add_group_inbox i env id epoch roster t)
              (elim (Bool-cases (id == i)) [
                | inl hit ↦ rw hit m
                | inr miss ↦ rw miss (b'.rosters i)
              ]);
      }
  Change-IsBounded s s' (unchanged same not_ok) m b = rw same b
  Change-IsBounded s s' (limited q entry found same not_ok) m b = record {
    exact = rw same (b.exact ∙ sym (stored_bytes-counted env q entry s found));
    bounded = rw same b.bounded;
    rosters =
        λ i. rw (same, inbox_at-check_and_bump i env.instant q entry s.queues found) (b.rosters i);
  }
  Change-IsBounded s s' (stored q tag envelope a) m b = stored-IsBounded s s' a b
  Change-IsBounded s s' (fanned q tag kind envelope a) m b = fanned-IsBounded s s' a b
  Change-IsBounded s s' (subscription ids none same) m b = rw same b
  Change-IsBounded s s' (subscription ids (some tx) same) m b = rw same (
      same_queues-IsBounded {s = s} (subscribe-queues env ids tx s)
        (unfold Subscribe.subscribe in ground arith) b)
  Change-IsBounded s s' (acked q mid same) m b =
      let (exact, le) = ack-IsExact q mid s b.exact (omega (arith, b.bounded)) in
      record {
        exact = rw same exact;
        bounded = rw same (omega (arith, b.bounded));
        rosters = λ i. rw (same, inbox_at-ack i q mid s) (b.rosters i);
      }

-- Every message of the history fits.
abbrev pub EventsFit : List Event → Type 0
EventsFit = All (λ e. MessageFits e.message)

-- From a relay that counts its storage exactly and within the bound and whose rosters have fewer than
-- 2^48 members, every history in which the rosters that are asked for are as short keeps it so: after
-- it `storage_bytes_used` is the number of ciphertext bytes in all mailboxes, and no more than
-- `MAX_STORAGE_BYTES`.
pub History-IsBounded :
    (p : Primitives) {s t : Inner} {events : List Event}
    → IsBounded s
    → EventsFit events
    → History p s events t
    → IsBounded t
unfolding set_attestation_key
History-IsBounded p b f start = b
History-IsBounded p b f (call {t = t} u e past run) =
    Change-IsBounded p e.env t u (handle-Change p e.env e.message e.push_tx t u e.reply run) f.0
      (History-IsBounded p b f.1 past)
History-IsBounded p b f (configure key past) =
    let ih = History-IsBounded p b f past in
    record { exact = ih.exact; bounded = ih.bounded; rosters = ih.rosters }
