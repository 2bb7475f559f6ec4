-- ===== src/Engine/Receive/Durable.antt =====
-- Acknowledged messages of engine/src/chat_engine.rs over a restart.
use Prim.Native.String.{String}
use rosette.Prelude.{
  ◌⊎◌, ℕ, List, [], ◌∷◌, ◌++◌, true, false, ◌||◌, Option, none, some, ◌≡◌, refl, arith, contains,
  ◌==◌, ==_iff, Bool-cases, inl, inr, Option-cases, sym, ap, ◌∙◌,
}
use rosette.Proto.Codec.{Codec}
use rosette.Proto.Envelope.{Envelope}
use rosette.Core.Storage as Disk
use rosette.Core.Storage.{commit, mark_all, seen_ids, get}
use rosette.Engine.Receive.{
  Mls, ChatEngine, PersistedEngine, Incoming, AckResult, persist, try_ack, surface, pump_push,
  pump_all, resume, event_of, restored, with_record, engine_key, session_key,
}
use rosette.Engine.Receive.Once.{
  count, contains-append, given, push-seen, push-new, applied_at_most_once,
}

module _ {S : Type 0} (codec : Codec PersistedEngine) (mls : Mls S) where
  -- The message is in the store once it was seen, and was seen when it is acknowledged.
  pub record IsSynced (i : ℕ) (e : ChatEngine S) : Type 0 where
    pub disk : Disk.Store
    pub has : e.store ≡ some disk
    pub kept : contains i e.seen ≡ true → contains i disk.seen ≡ true
    pub known : contains i e.acked ≡ true → contains i e.seen ≡ true

  -- Each push of the message is handled without an error; those of other messages may fail.
  abbrev pub AreHandled : ℕ → List (AckResult × Envelope) → ChatEngine S → Type 0
  AreHandled i [] e = Unit
  AreHandled i ((answer, envelope) ∷ pushes) e =
      (((envelope.message_id == i) ≡ false) ⊎ ((pump_push codec mls answer envelope e).1 ≡ true))
      × AreHandled i pushes (pump_push codec mls answer envelope e).0

  surfaced :
      (answer : AckResult) (id : ℕ) (incoming : Option Incoming) (e : ChatEngine S)
      (disk : Disk.Store)
      → e.store ≡ some disk
      → (surface codec mls answer id incoming e).1 ≡ true
      → (disk' : Disk.Store) × ((surface codec mls answer id incoming e).0.store ≡ some disk')
        × (disk'.seen ≡ mark_all (id ∷ []) disk.seen)
        × ((surface codec mls answer id incoming e).0.seen ≡ e.seen)
        × ((surface codec mls answer id incoming e).0.acked ≡ e.acked ++ id ∷ [])
  unfolding surface persist try_ack commit
  surfaced answer id none e disk has h = cc
  surfaced answer id (some incoming) e disk has h =
      elim (Option-cases (event_of codec mls incoming e.session)) [
        | inl no_event ↦ absurd (ground arith)
        | inr (event, found) ↦ elim (Option-cases (mls.snapshot e.session)) [
          | inl no_snapshot ↦ absurd (ground arith)
          | inr (bytes, taken) ↦ rw (found, has, taken, surface) (_, refl, refl, refl, refl)
        ]
      ]

  contains-mark :
      (i id : ℕ) (seen : List ℕ)
      → contains i (mark_all (id ∷ []) seen) ≡ (contains i seen || (id == i))
  unfolding mark_all
  contains-mark i id seen = ground (arith, contains-append i seen (id ∷ []), ==_iff id i)

  -- What a push of another message keeps, whatever its outcome.
  pub record Keeps (i : ℕ) (disk : Disk.Store) (e e' : ChatEngine S) : Type 0 where
    pub after : Disk.Store
    pub has : e'.store ≡ some after
    pub kept : contains i disk.seen ≡ true → contains i after.seen ≡ true
    pub seen : e'.seen ≡ e.seen
    pub acked : contains i e'.acked ≡ contains i e.acked

  surface-Keeps :
      (i : ℕ) (answer : AckResult) (id : ℕ) (incoming : Option Incoming) (e : ChatEngine S)
      (disk : Disk.Store)
      → e.store ≡ some disk
      → (id == i) ≡ false
      → Keeps i disk e (surface codec mls answer id incoming e).0
  unfolding surface persist try_ack commit
  surface-Keeps i answer id none e disk has other = record {
    after = disk;
    has = has;
    kept = λ h. h;
    seen = refl;
    acked = refl;
  }
  surface-Keeps i answer id (some incoming) e disk has other =
      elim (Option-cases (event_of codec mls incoming e.session)) [
        | inl no_event ↦
            rw (no_event, surface)
              (record { after = disk; has = has; kept = λ h. h; seen = refl; acked = refl })
        | inr (event, found) ↦ elim (Option-cases (mls.snapshot e.session)) [
          | inl no_snapshot ↦
              rw (found, has, no_snapshot, surface)
                (record { after = disk; has = has; kept = λ h. h; seen = refl; acked = refl })
          | inr (bytes, taken) ↦
              rw (found, has, taken, surface)
                (record {
                  after = _;
                  has = refl;
                  kept = λ h. ground (arith, contains-mark i id disk.seen);
                  seen = refl;
                  acked = ground (arith, contains-append i e.acked (id ∷ []), other);
                })
        ]
      ]

  other-IsSynced :
      (i : ℕ) (answer : AckResult) (envelope : Envelope) (e : ChatEngine S)
      → contains envelope.message_id e.seen ≡ false
      → (envelope.message_id == i) ≡ false
      → IsSynced i e
      → IsSynced i (pump_push codec mls answer envelope e).0
  other-IsSynced i answer envelope e new other h =
      let id = envelope.message_id in
      let incoming = (mls.process_incoming envelope.padded_ciphertext e.session).1 in
      let k = surface-Keeps i answer id incoming (given codec mls envelope e) h.disk h.has other in
      let was = contains-append i e.seen (id ∷ []) in
      let same : contains i (e.seen ++ id ∷ []) ≡ contains i e.seen = ground (arith, was, other) in
      let seen = ap (contains i) k.seen ∙ same in
      rw (push-new codec mls answer envelope e new) (record {
        disk = k.after;
        has = k.has;
        kept = λ there. k.kept (h.kept (sym seen ∙ there));
        known = λ there. seen ∙ h.known (sym k.acked ∙ there);
      })

  push-IsSynced :
      (i : ℕ) (answer : AckResult) (envelope : Envelope) (e : ChatEngine S)
      → ((envelope.message_id == i) ≡ false) ⊎ ((pump_push codec mls answer envelope e).1 ≡ true)
      → IsSynced i e
      → IsSynced i (pump_push codec mls answer envelope e).0
  unfolding try_ack
  push-IsSynced i answer envelope e condition h =
      let id = envelope.message_id in
      let incoming = (mls.process_incoming envelope.padded_ciphertext e.session).1 in
      elim (Bool-cases (contains id e.seen)) [
        | inl old ↦ rw (push-seen codec mls answer envelope e old) (record {
          disk = h.disk;
          has = h.has;
          kept = h.kept;
          known =
              λ there. ground (arith, contains-append i e.acked (id ∷ []), h.known, ==_iff id i);
        })
        | inr new ↦ elim condition [
          | inl other ↦ other-IsSynced i answer envelope e new other h
          | inr handled ↦
              let same = push-new codec mls answer envelope e new in
              let g = given codec mls envelope e in
              let (disk, has, marked, seen, acked) =
                surfaced answer id incoming g h.disk h.has (ap (λ r. r.1) (sym same) ∙ handled) in
              rw same (record {
                disk = disk;
                has = has;
                kept = λ there.
                    let was = contains-append i e.seen (id ∷ []) in
                    let now = ap (contains i) marked ∙ contains-mark i id h.disk.seen in
                    let in_seen : contains i (e.seen ++ id ∷ []) ≡ true =
                      ap (contains i) (sym seen) ∙ there in
                    ground (arith, was, now, in_seen, h.kept);
                known = λ there.
                    let was = contains-append i e.seen (id ∷ []) in
                    let acks = contains-append i e.acked (id ∷ []) in
                    let in_acked : contains i (e.acked ++ id ∷ []) ≡ true =
                      ap (contains i) (sym acked) ∙ there in
                    let goal : contains i (e.seen ++ id ∷ []) ≡ true =
                      ground (arith, was, acks, in_acked, h.known) in
                    ap (contains i) seen ∙ goal;
              })
        ]
      ]

  pump_all-IsSynced :
      (i : ℕ) (pushes : List (AckResult × Envelope)) (e : ChatEngine S)
      → AreHandled i pushes e
      → IsSynced i e
      → IsSynced i (pump_all codec mls pushes e)
  unfolding pump_all
  pump_all-IsSynced i [] e all h = h
  pump_all-IsSynced i ((answer, envelope) ∷ pushes) e all h =
      pump_all-IsSynced i pushes (pump_push codec mls answer envelope e).0 all.1
        (push-IsSynced i answer envelope e all.0 h)

  restored-seen :
      (persisted : PersistedEngine) (disk : Disk.Store) (session : Option S) (e : ChatEngine S)
      → restored codec mls persisted disk session ≡ some e
      → (e.seen ≡ disk.seen) × (e.applied ≡ [])
  restored-seen persisted disk none e h = absurd (ground arith)
  restored-seen persisted disk (some session) e h = (ground arith, ground arith)

  with_record-seen :
      (disk : Disk.Store) (session : Option (List ℕ)) (decoded : String ⊎ PersistedEngine)
      (e : ChatEngine S)
      → with_record codec mls disk session decoded ≡ some e
      → (e.seen ≡ disk.seen) × (e.applied ≡ [])
  with_record-seen disk session (inl error) e h = absurd (ground arith)
  with_record-seen disk none (inr persisted) e h = absurd (ground arith)
  with_record-seen disk (some bytes) (inr persisted) e h =
      restored-seen persisted disk (mls.restore bytes) e h

  resume-seen :
      (disk : Disk.Store) (e : ChatEngine S)
      → resume codec mls disk ≡ some e
      → (e.seen ≡ disk.seen) × (e.applied ≡ [])
  unfolding resume
  resume-seen disk e h = elim (Option-cases (get engine_key disk)) [
    | inl missing ↦ absurd (ground arith)
    | inr (bytes, found) ↦
        let built : with_record codec mls disk (get session_key disk) (codec.decode bytes)
            ≡ some e =
          sym (rw (found, resume) refl) ∙ h in
        with_record-seen disk (get session_key disk) (codec.decode bytes) e built
  ]

  -- Take a message that is in the store of an engine if it was seen there, and was seen if it was
  -- acknowledged. Let any pushes come, of which those of the message are handled without an error while
  -- the others may fail, and let the process end. When the message was acknowledged before, the engine
  -- that is resumed from the store never gives it to the session, whatever is pushed to it.
  pub acked_never_reapplied :
      (i : ℕ) (pushes : List (AckResult × Envelope)) (e : ChatEngine S)
      → IsSynced i e
      → AreHandled i pushes e
      → (disk : Disk.Store) → (pump_all codec mls pushes e).store ≡ some disk
      → (resumed : ChatEngine S) → resume codec mls disk ≡ some resumed
      → (later : List (AckResult × Envelope))
      → contains i (pump_all codec mls pushes e).acked ≡ true
      → count i (pump_all codec mls later resumed).applied ≡ 0
  acked_never_reapplied i pushes e synced all disk has resumed again later acked =
      let h = pump_all-IsSynced i pushes e all synced in
      let same : some h.disk ≡ some disk = sym h.has ∙ has in
      let disks : h.disk ≡ disk = ground arith in
      let in_store : contains i disk.seen ≡ true =
        ap (λ d. contains i d.seen) (sym disks) ∙ h.kept (h.known acked) in
      let (seen, applied) = resume-seen disk resumed again in
      let old : contains i resumed.seen ≡ true = ap (contains i) seen ∙ in_store in
      let once = applied_at_most_once codec mls later resumed i applied in ground (arith, once, old)
