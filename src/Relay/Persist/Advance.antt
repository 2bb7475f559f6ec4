-- ===== src/Relay/Persist/Advance.antt =====
-- The epoch of a commit, in the tables and in memory of relay/src/state.rs.
use rosette.Prelude.{
  ℕ, ◌+◌, ◌<◌, leb, true, ◌%◌, ◌^◌, List, false, some, ◌≡◌, refl, sym, ap, ◌∙◌, subst, arith, map,
  ◌==◌, ==_iff, ==_refl, Bool-cases, inl, inr, Option-cases,
}
use rosette.Prelude.Map.{Map, lookup, insert, lookup-insert}
use rosette.Proto.Codec.{Codec}
use rosette.Proto.Envelope.{Envelope}
use rosette.Proto.Wire.{commit, GroupSendKind, application}
use rosette.Relay.State.{Inner, QueueEntry, Db, group_inbox, EpochColumn, null, integer, real}
use rosette.Relay.Queues.Tables.{next_epoch, bump_epoch}
use rosette.Relay.Queues.Group.{
  advance, is_mailbox, stored_targets, advance_epoch, insert_pendings, persist_group,
}
use rosette.Relay.Persist.{
  Mirrors, MirrorsAt, encoded, row_image, roster_rows, pending_rows, epoch_of, roster_of,
  messages_of, column_at, epoch_column, entry_image,
}
use rosette.Relay.Persist.Mirror.{insert-Mirrors, at}
use rosette.Relay.Persist.Calls.{retain_same}

module _ (codec : Codec Envelope) where
  next_epoch-column :
      (column : EpochColumn) (epoch : ℕ)
      → column ≡ column_at column (some epoch)
      → next_epoch column ≡ column_at (next_epoch column) (some ((epoch + 1) % 2 ^ 64))
  next_epoch-column null epoch h = absurd (ground arith)
  next_epoch-column real epoch h = refl
  next_epoch-column (integer own) epoch h =
      let same : own ≡ epoch = ground arith in
      elim (Bool-cases (leb (2 ^ 63) (own + 1))) [
        | inl over ↦ rw over refl
        | inr fits ↦
            let small : own + 1 < 2 ^ 63 = ground arith in
            rw fits (ap integer (omega (arith, same, small)))
      ]

  -- The image of the row of an inbox, and of any other row, after a bump.
  row_image-bump :
      (j q : ℕ) (db : Db) (key epoch : ℕ)
      → row_image (lookup j db.queues)
        ≡ some (key, column_at (epoch_column (lookup j db.queues)) (some epoch))
      → let bumped = lookup q (bump_epoch j db).queues in
        (((j == q) ≡ true)
          → row_image bumped
            ≡ some (key, column_at (epoch_column bumped) (some ((epoch + 1) % 2 ^ 64))))
        × (((j == q) ≡ false) → bumped ≡ lookup q db.queues)
  unfolding bump_epoch
  row_image-bump j q db key epoch h = elim (Option-cases (lookup j db.queues)) [
    | inl e ↦ absurd (ground arith)
    | inr (row, e) ↦
        let image : row_image (some row) ≡ some (key, column_at row.epoch (some epoch)) =
          subst (λ r. row_image r ≡ some (key, column_at (epoch_column r) (some epoch))) e h in
        let sent : row.send_key ≡ key = ground arith in
        let kept : row.epoch ≡ column_at row.epoch (some epoch) = ground arith in
        let next = next_epoch-column row.epoch epoch kept in
        let found = lookup-insert j q (record row { epoch = next_epoch row.epoch }) db.queues in
        rw (e, bump_epoch) (λ hit. rw (found, hit) (cc), λ miss. rw (found, miss) refl)
  ]

  bump-rows :
      (j : ℕ) (db : Db)
      → ((bump_epoch j db).roster ≡ db.roster) × ((bump_epoch j db).pending ≡ db.pending)
  unfolding bump_epoch
  bump-rows j db = elim (Option-cases (lookup j db.queues)) [
    | inl e ↦ rw (e, bump_epoch) (refl, refl)
    | inr (row, e) ↦ rw (e, bump_epoch) (refl, refl)
  ]

  advance-inbox :
      (target : ℕ) (entry : QueueEntry) (epoch : ℕ) (roster : List ℕ)
      → entry.kind ≡ group_inbox epoch roster
      → advance (commit target) entry
        ≡ record entry { kind = group_inbox ((epoch + 1) % 2 ^ 64) roster }
  unfolding advance
  advance-inbox target entry epoch roster h = rw (h, advance) refl

  -- A commit, after which the tables have the epoch, or a REAL.
  commit-Mirrors :
      (j target : ℕ) (entry : QueueEntry) (epoch : ℕ) (roster : List ℕ) (queues : Map QueueEntry)
      (db : Db)
      → lookup j queues ≡ some entry
      → entry.kind ≡ group_inbox epoch roster
      → Mirrors codec queues db
      → Mirrors codec (insert j (advance (commit target) entry) queues) (bump_epoch j db)
  commit-Mirrors j target entry epoch roster queues db found kind m =
      let old = at codec j entry queues db found m in
      let rows = bump-rows j db in
      let image = λ (q : ℕ). row_image-bump j q db entry.send_key epoch (
        old.row
        ∙ ap
            (λ k. some (entry.send_key, column_at (epoch_column (lookup j db.queues)) (epoch_of k)))
            kind) in
      rw (advance-inbox target entry epoch roster kind) (
        insert-Mirrors codec j (record entry { kind = group_inbox ((epoch + 1) % 2 ^ 64) roster })
          queues (bump_epoch j db)
          (record {
            row = (image j).0 (==_refl j);
            roster = ap (roster_rows j) rows.0 ∙ old.roster ∙ ap roster_of kind;
            pending =
                ap (pending_rows j) rows.1
                ∙ old.pending
                ∙ ap (λ k. map (encoded codec) (messages_of k)) kind;
            own = tt;
          })
          (λ q miss. record {
            row =
                subst (λ r. row_image r ≡ entry_image (epoch_column r) (lookup q queues))
                  (sym ((image q).1 miss)) (m q).row;
            roster = ap (roster_rows q) rows.0 ∙ (m q).roster;
            pending = ap (pending_rows q) rows.1 ∙ (m q).pending;
            own = (m q).own;
          }))

  is_mailbox-advance :
      (kind : GroupSendKind) (entry : QueueEntry) (epoch : ℕ) (roster : List ℕ)
      → entry.kind ≡ group_inbox epoch roster
      → is_mailbox (some (advance kind entry)) ≡ false
  unfolding advance
  is_mailbox-advance application entry epoch roster k = rw k refl
  is_mailbox-advance (commit target) entry epoch roster k = rw (k, advance) refl

  pub targets-advance :
      (j : ℕ) (kind : GroupSendKind) (entry : QueueEntry) (epoch : ℕ) (roster members : List ℕ)
      (queues : Map QueueEntry)
      → lookup j queues ≡ some entry
      → entry.kind ≡ group_inbox epoch roster
      → stored_targets (insert j (advance kind entry) queues) members
        ≡ stored_targets queues members
  unfolding stored_targets
  targets-advance j kind entry epoch roster members queues found k =
      retain_same (λ i. is_mailbox (lookup i (insert j (advance kind entry) queues)))
        (λ i. is_mailbox (lookup i queues))
        (λ i.
          ap is_mailbox (lookup-insert j i (advance kind entry) queues)
          ∙ elim (Bool-cases (j == i)) [
            | inl hit ↦ rw hit (
                is_mailbox-advance kind entry epoch roster k
                ∙ sym (
                    ap (λ n. is_mailbox (lookup n queues)) (sym ((==_iff j i).0 hit))
                    ∙ rw (found, k) refl))
            | inr miss ↦ rw miss refl
          ])
        members

  pub advanced :
      (j : ℕ) (kind : GroupSendKind) (entry : QueueEntry) (s : Inner)
      → lookup j s.queues ≡ some entry
      → ((advance_epoch j kind s).queues ≡ insert j (advance kind entry) s.queues)
        × ((advance_epoch j kind s).db ≡ s.db)
  unfolding advance_epoch
  advanced j kind entry s e = rw (e, advance_epoch) (refl, refl)

  -- The tables with the epoch of a commit.
  abbrev pub with_epoch : ℕ → GroupSendKind → Db → Db
  with_epoch j application db = db
  with_epoch j (commit target) db = bump_epoch j db

  pub advance-Mirrors :
      (j : ℕ) (kind : GroupSendKind) (entry : QueueEntry) (epoch : ℕ) (roster : List ℕ)
      (queues : Map QueueEntry) (db : Db)
      → lookup j queues ≡ some entry
      → entry.kind ≡ group_inbox epoch roster
      → Mirrors codec queues db
      → Mirrors codec (insert j (advance kind entry) queues) (with_epoch j kind db)
  unfolding advance
  advance-Mirrors j application entry epoch roster queues db found k m =
      insert-Mirrors codec j entry queues db (subst (λ o. MirrorsAt codec j o db) found (m j))
        (λ q miss. m q)
  advance-Mirrors j (commit target) entry epoch roster queues db found k m =
      commit-Mirrors j target entry epoch roster queues db found k m

  pub persist_group-rows :
      (j : ℕ) (kind : GroupSendKind) (targets : List ℕ) (v : Envelope) (db : Db)
      → persist_group codec j kind targets v db
        ≡ insert_pendings codec targets v (with_epoch j kind db)
  unfolding persist_group
  persist_group-rows j application targets v db = refl
  persist_group-rows j (commit target) targets v db = refl
