-- ===== src/Relay/Persist/Kept.antt =====
-- The tables beside the queues over the histories of relay/src/state.rs.
use rosette.Prelude.{
  ℕ, ◌+◌, ◌<◌, ◌≤◌, ◌^◌, suc, length, All, List, true, false, none, some, ◌≡◌, refl, sym, ap, ◌∙◌,
  subst, arith, ==_refl, if◌then◌else◌, Option-cases, inl, inr,
}
use rosette.Prelude.Map.{lookup, lookup-insert}
use rosette.Proto.Codec.{Codec}
use rosette.Proto.Envelope.{Envelope}
use rosette.Proto.Wire.{GroupSendKind, ClientMessage, ServerMessage}
use rosette.Relay.State.{Inner, QueueEntry, QueueKind-cases, mailbox, group_inbox, Env, Primitives}
use rosette.Relay.Limits.{counted, check_and_bump_rate_limit}
use rosette.Relay.Gate.{set_attestation_key}
use rosette.Relay.Queues.Tables.{
  with_db, insert_queue, insert_roster, insert_pending, delete_pending,
}
use rosette.Relay.Queues.Create.{add_mailbox, add_group_inbox}
use rosette.Relay.Queues.Push.{push_and_notify}
use rosette.Relay.Queues.Group.{
  is_mailbox, stored_targets, advance_epoch, insert_pendings, persist_group, fan_out,
  deliver_to_group,
}
use rosette.Relay.Queues.Ack.{ack}
use rosette.Relay.Queues.Subscribe
use rosette.Relay.Queues.Mailbox.Accepted as Mail
use rosette.Relay.Queues.Group.Accepted as Group
use rosette.Relay.Handle.Change.{
  Change, handle-Change, gate, mailbox_added, inbox_added, unchanged, limited, stored, fanned,
  subscription, acked,
}
use rosette.Relay.Handle.History.{History, Event, start, call, configure}
use rosette.Relay.Epochs.Calls.{subscribe-queues}
use rosette.Relay.Persist.{Mirrors, pending_at, messages_of}
use rosette.Relay.Persist.Mirror.{
  counted-Mirrors, mailbox-Mirrors, inbox-Mirrors, acked-Mirrors, unacked-Mirrors,
}
use rosette.Relay.Persist.Advance.{
  targets-advance, advanced, with_epoch, advance-Mirrors, persist_group-rows,
}
use rosette.Relay.Persist.Below.{
  IsPersisted, IsPersisted-suc, AreBelow, insert_queue-AreBelow, with_epoch-AreBelow,
  queues-insert_pendings,
}
use rosette.Relay.Persist.Calls.{push-Mirrors, db-push, fan_out-Mirrors, db-fan_out}

module _ (codec : Codec Envelope) (bound : ℕ) where
  same-IsPersisted :
      (s s' : Inner)
      → s'.queues ≡ s.queues
      → s'.db ≡ s.db
      → IsPersisted codec bound s
      → IsPersisted codec bound s'
  same-IsPersisted s s' queues db h = record {
    tables = h.tables;
    has = db ∙ h.has;
    mirrors = subst (λ m. Mirrors codec m h.tables) (sym queues) h.mirrors;
    below = h.below;
  }

  ack-IsPersisted :
      (q mid : ℕ) (s : Inner) → IsPersisted codec bound s → IsPersisted codec bound (ack q mid s)
  unfolding ack
  ack-IsPersisted q mid s h =
      let written : (with_db (delete_pending q mid) s).db ≡ some (delete_pending q mid h.tables) =
        rw h.has refl in
      elim (Option-cases (lookup q s.queues)) [
        | inl e ↦
            rw (e, ack)
              (record {
                tables = delete_pending q mid h.tables;
                has = written;
                mirrors = unacked-Mirrors codec q mid s.queues h.tables (ap pending_at e) h.mirrors;
                below = unfold delete_pending in h.below;
              })
        | inr (entry, e) ↦ elim (QueueKind-cases entry.kind) [
          | inl (pending, k) ↦
              rw (e, k, ack)
                (record {
                  tables = delete_pending q mid h.tables;
                  has = written;
                  mirrors = acked-Mirrors codec q mid entry pending s.queues h.tables e k h.mirrors;
                  below = unfold delete_pending in h.below;
                })
          | inr (epoch, roster, k) ↦
              rw (e, k, ack)
                (record {
                  tables = delete_pending q mid h.tables;
                  has = written;
                  mirrors =
                      unacked-Mirrors codec q mid s.queues h.tables
                        (ap pending_at e ∙ ap messages_of k) h.mirrors;
                  below = unfold delete_pending in h.below;
                })
        ]
      ]

-- The epoch of an inbox that a request makes.
abbrev pub initial_epoch_of : ClientMessage → ℕ
initial_epoch_of (ClientMessage.create_group_inbox solution epoch roster attestation) = epoch
initial_epoch_of message = 0

module _ (p : Primitives) (env : Env) (bound : ℕ) where
  delivered-IsPersisted :
      (j : ℕ) (kind : GroupSendKind) (v : Envelope) (entry : QueueEntry) (epoch : ℕ)
      (roster : List ℕ) (s : Inner)
      → lookup j s.queues ≡ some entry
      → entry.kind ≡ group_inbox epoch roster
      → bound < 2 ^ 63
      → IsPersisted p.codec bound s
      → IsPersisted p.codec (suc bound) (deliver_to_group p env j kind v roster s)
  unfolding deliver_to_group
  delivered-IsPersisted j kind v entry epoch roster s found k small h =
      let targets = stored_targets s.queues roster in
      let c = with_db (persist_group p.codec j kind targets v) s in
      let (queues, db) = advanced p.codec j kind entry c found in
      let t = advance_epoch j kind c in
      let base = with_epoch p.codec j kind h.tables in
      let mirrored : Mirrors p.codec t.queues base =
        subst (λ m. Mirrors p.codec m base) (sym queues)
          (advance-Mirrors p.codec j kind entry epoch roster s.queues h.tables found k h.mirrors) in
      let same : stored_targets t.queues roster ≡ targets =
        ap (λ m. stored_targets m roster) queues
        ∙ targets-advance p.codec j kind entry epoch roster roster s.queues found k in
      record {
        tables = insert_pendings p.codec targets v base;
        has =
            db-fan_out p.codec env v roster t
            ∙ db
            ∙ rw h.has (ap some (persist_group-rows p.codec j kind targets v h.tables));
        mirrors =
            subst
              (λ ts.
                Mirrors p.codec (fan_out env roster v t).queues (insert_pendings p.codec ts v base))
              same (fan_out-Mirrors p.codec env v roster t base mirrored);
        below =
            subst (AreBelow (suc bound)) (sym (queues-insert_pendings p.codec targets v base))
              (with_epoch-AreBelow p.codec bound j kind h.tables small h.below);
      }

  counted-IsPersisted :
      (j : ℕ) (entry : QueueEntry) (s : Inner)
      → lookup j s.queues ≡ some entry
      → IsPersisted p.codec bound s
      → IsPersisted p.codec bound (counted env j entry s)
  counted-IsPersisted j entry s found h = record {
    tables = h.tables;
    has = h.has;
    mirrors = counted-Mirrors p.codec env j entry s h.tables found h.mirrors;
    below = h.below;
  }

  limited_kind :
      (entry : QueueEntry) → (check_and_bump_rate_limit env.instant entry).0.kind ≡ entry.kind
  unfolding check_and_bump_rate_limit
  limited_kind entry = ground arith

  found-counted :
      (j : ℕ) (entry : QueueEntry) (s : Inner)
      → lookup j (counted env j entry s).queues
        ≡ some (check_and_bump_rate_limit env.instant entry).0
  found-counted j entry s =
      lookup-insert j j (check_and_bump_rate_limit env.instant entry).0 s.queues
      ∙ rw (==_refl j) refl

  fanned-IsPersisted :
      {q tag : ℕ} {kind : GroupSendKind} {v : Envelope} (s s' : Inner)
      → Group.Accepted p env q kind tag v s s'
      → bound < 2 ^ 63
      → IsPersisted p.codec bound s
      → IsPersisted p.codec (suc bound) s'
  fanned-IsPersisted {q} {tag} {kind} {v} s s' a small h =
      subst (IsPersisted p.codec (suc bound)) (sym a.result) (
        delivered-IsPersisted q kind v (check_and_bump_rate_limit env.instant a.entry).0 a.epoch
          a.roster (counted env q a.entry s) (found-counted q a.entry s)
          (limited_kind a.entry ∙ a.is_inbox) small (counted-IsPersisted q a.entry s a.found h))

  stored-IsPersisted :
      {q tag : ℕ} {v : Envelope} (s s' : Inner)
      → Mail.Accepted p env q tag v s s'
      → IsPersisted p.codec bound s
      → IsPersisted p.codec bound s'
  stored-IsPersisted {q} {tag} {v} s s' a h =
      let c = counted env q a.entry s in
      let t = with_db (insert_pending p.codec q v) c in
      let into : is_mailbox (lookup q c.queues) ≡ true =
        ap is_mailbox (found-counted q a.entry s)
        ∙ ap (λ k. elim k [ mailbox _ ↦ true | group_inbox _ _ ↦ false ])
            (limited_kind a.entry ∙ a.is_mailbox) in
      let b = counted-IsPersisted q a.entry s a.found h in
      subst (IsPersisted p.codec bound) (sym a.result) (record {
        tables = insert_pending p.codec q v b.tables;
        has = db-push p.codec env v q t ∙ rw b.has refl;
        mirrors =
            subst (Mirrors p.codec (push_and_notify env q v.message_id v t).queues)
              (ap (λ held. if held then insert_pending p.codec q v b.tables else b.tables) into)
              (push-Mirrors p.codec env v q t b.tables b.mirrors);
        below = unfold insert_pending in b.below;
      })

  Change-IsPersisted :
      {msg : ClientMessage} {reply : ServerMessage} (s s' : Inner)
      → bound < 2 ^ 63
      → initial_epoch_of msg < bound
      → Change p env s s' msg reply
      → IsPersisted p.codec bound s
      → IsPersisted p.codec (suc bound) s'
  Change-IsPersisted s s' small first (gate k not_ok) h =
      IsPersisted-suc (same-IsPersisted p.codec bound s s' k.queues k.db h)
  Change-IsPersisted s s' small first (mailbox_added t id k free same not_ok) h =
      let b = same-IsPersisted p.codec bound s t k.queues k.db h in
      rw same (
        unfold add_mailbox in
        IsPersisted-suc {bound = bound} (record {
          tables = insert_queue id env.send_key_draw none b.tables;
          has = rw b.has refl;
          mirrors = mailbox-Mirrors p.codec env id t.queues b.tables free b.mirrors;
          below = insert_queue-AreBelow bound id env.send_key_draw none b.tables tt b.below;
        }))
  Change-IsPersisted s s' small first
        (inbox_added solution token t id epoch roster k free same not_ok) h =
      let b = same-IsPersisted p.codec bound s t k.queues k.db h in
      rw same (
        unfold add_group_inbox in
        IsPersisted-suc {bound = bound} (record {
          tables =
              insert_roster id roster (insert_queue id env.send_key_draw (some epoch) b.tables);
          has = rw b.has refl;
          mirrors = inbox-Mirrors p.codec env id epoch roster t.queues b.tables free b.mirrors;
          below =
              unfold insert_roster in
              insert_queue-AreBelow bound id env.send_key_draw (some epoch) b.tables first b.below;
        }))
  Change-IsPersisted s s' small first (unchanged same not_ok) h = rw same (IsPersisted-suc h)
  Change-IsPersisted s s' small first (limited q entry found same not_ok) h =
      rw same (IsPersisted-suc (counted-IsPersisted q entry s found h))
  Change-IsPersisted s s' small first (stored q tag v a) h =
      IsPersisted-suc (stored-IsPersisted s s' a h)
  Change-IsPersisted s s' small first (fanned q tag kind v a) h = fanned-IsPersisted s s' a small h
  Change-IsPersisted s s' small first (subscription ids none same) h = rw same (IsPersisted-suc h)
  Change-IsPersisted s s' small first (subscription ids (some tx) same) h = rw same (
      same-IsPersisted p.codec (suc bound) s _ (subscribe-queues env ids tx s)
        (unfold Subscribe.subscribe in ground arith) (IsPersisted-suc h))
  Change-IsPersisted s s' small first (acked q mid same) h =
      rw same (IsPersisted-suc (ack-IsPersisted p.codec bound q mid s h))

-- Over a history that makes inboxes with epochs below the bound, and that is too short to take the
-- bound over 2 ^ 63, what the tables have of a queue is what memory has of it: its key, its epoch, its
-- roster, and its messages in their order, encoded.
pub History-IsPersisted :
    (p : Primitives) (bound : ℕ) {s t : Inner} {events : List Event}
    → IsPersisted p.codec bound s
    → All (λ e. initial_epoch_of e.message < bound) events
    → bound + length events ≤ 2 ^ 63
    → History p s events t
    → IsPersisted p.codec (bound + length events) t
unfolding set_attestation_key
History-IsPersisted p bound {s = s} h all fits start =
    subst (λ n. IsPersisted p.codec n s) (omega arith) h
History-IsPersisted p bound h all fits (call {events = events} {t = t} u e history done) =
    let here = bound + length events in
    let before = History-IsPersisted p bound h all.1 (omega (arith, fits)) history in
    subst (λ n. IsPersisted p.codec n u) (omega arith)
      (Change-IsPersisted p e.env here t u (omega (arith, fits)) (omega (arith, all.0))
        (handle-Change p e.env e.message e.push_tx t u e.reply done) before)
History-IsPersisted p bound h all fits (configure {events = events} {t = t} key history) =
    same-IsPersisted p.codec (bound + length events) t _ refl refl
      (History-IsPersisted p bound h all fits history)
