-- ===== src/Relay/Persist/Mirror.antt =====
-- What the creations, a stored message, a commit and an acknowledgement of relay/src/state.rs do to a
-- queue and to its rows.
use rosette.Prelude.{
  ℕ, List, [], ◌∷◌, ◌++◌, false, none, some, ◌≡◌, refl, sym, ap, ◌∙◌, subst, arith, map, All,
  All-append, All-retain, ◌==◌, ==_iff, ==_refl, not, Bool-cases, inl, inr, append_nil,
}
use rosette.Prelude.Map.{Map, lookup, insert, lookup-insert}
use rosette.Proto.Codec.{Codec}
use rosette.Proto.Envelope.{Envelope}
use rosette.Relay.State.{Inner, QueueEntry, Db, Pending, mailbox, group_inbox, Env}
use rosette.Relay.Limits.{check_and_bump_rate_limit, counted}
use rosette.Relay.Queues.Tables.{insert_queue, insert_roster, insert_pending, delete_pending}
use rosette.Relay.Queues.Create.{new_entry}
use rosette.Relay.Queues.Ack.{unacked}
use rosette.Relay.Persist.{
  Mirrors, MirrorsAt, IsOwn, encoded, roster_rows, pending_rows, pending_at, epoch_of, roster_of,
  messages_of, column_at, epoch_column,
}
use rosette.Relay.Persist.Rows.{
  roster_rows-insert_roster, pending_rows-insert_pending, pending_rows-delete_pending, without,
  without-encoded, map-append,
}

module _ (codec : Codec Envelope) where
  -- An entry is inserted beside a change of the tables that leaves the rows of other queues.
  pub insert-Mirrors :
      (j : ℕ) (entry : QueueEntry) (queues : Map QueueEntry) (db : Db)
      → MirrorsAt codec j (some entry) db
      → ((q : ℕ) → (j == q) ≡ false → MirrorsAt codec q (lookup q queues) db)
      → Mirrors codec (insert j entry queues) db
  insert-Mirrors j entry queues db own others q = elim (Bool-cases (j == q)) [
    | inl hit ↦
        rw (lookup-insert j q entry queues, hit)
          (subst (λ i. MirrorsAt codec i (some entry) db) ((==_iff j q).0 hit) own)
    | inr miss ↦ rw (lookup-insert j q entry queues, miss) (others q miss)
  ]

  pub at :
      (j : ℕ) (entry : QueueEntry) (queues : Map QueueEntry) (db : Db)
      → lookup j queues ≡ some entry
      → Mirrors codec queues db
      → MirrorsAt codec j (some entry) db
  at j entry queues db found m = subst (λ o. MirrorsAt codec j o db) found (m j)

  -- The rate limit is not in the tables.
  pub counted-Mirrors :
      (env : Env) (j : ℕ) (entry : QueueEntry) (s : Inner) (db : Db)
      → lookup j s.queues ≡ some entry
      → Mirrors codec s.queues db
      → Mirrors codec (counted env j entry s).queues db
  unfolding check_and_bump_rate_limit
  counted-Mirrors env j entry s db found m =
      insert-Mirrors j (check_and_bump_rate_limit env.instant entry).0 s.queues db
        (let own = at j entry s.queues db found m in
          let key : (check_and_bump_rate_limit env.instant entry).0.send_key ≡ entry.send_key =
            ground arith in
          let kind : (check_and_bump_rate_limit env.instant entry).0.kind ≡ entry.kind =
            ground arith in
          record {
            row = own.row ∙ ap some (cc);
            roster = own.roster ∙ ap roster_of (sym kind);
            pending = own.pending ∙ ap (λ k. map (encoded codec) (messages_of k)) (sym kind);
            own = subst (λ k. All IsOwn (messages_of k)) (sym kind) own.own;
          })
        (λ q miss. m q)

  pub mailbox-Mirrors :
      (env : Env) (id : ℕ) (queues : Map QueueEntry) (db : Db)
      → lookup id queues ≡ none
      → Mirrors codec queues db
      → Mirrors codec
          (insert id (new_entry env (mailbox [])) queues)
          (insert_queue id env.send_key_draw none db)
  unfolding insert_queue new_entry
  mailbox-Mirrors env id queues db free m =
      let old = subst (λ o. MirrorsAt codec id o db) free (m id) in
      insert-Mirrors id (new_entry env (mailbox [])) queues
        (insert_queue id env.send_key_draw none db)
        (record {
          row = rw (lookup-insert id id _ db.queues, ==_refl id) refl;
          roster = old.roster;
          pending = old.pending;
          own = tt;
        })
        (λ q miss. record {
          row = rw (lookup-insert id q _ db.queues, miss) (m q).row;
          roster = (m q).roster;
          pending = (m q).pending;
          own = (m q).own;
        })

  pub inbox-Mirrors :
      (env : Env) (id epoch : ℕ) (members : List ℕ) (queues : Map QueueEntry) (db : Db)
      → lookup id queues ≡ none
      → Mirrors codec queues db
      → Mirrors codec
          (insert id (new_entry env (group_inbox epoch members)) queues)
          (insert_roster id members (insert_queue id env.send_key_draw (some epoch) db))
  unfolding insert_queue insert_roster new_entry
  inbox-Mirrors env id epoch members queues db free m =
      let old = subst (λ o. MirrorsAt codec id o db) free (m id) in
      let db1 = insert_queue id env.send_key_draw (some epoch) db in
      insert-Mirrors id (new_entry env (group_inbox epoch members)) queues
        (insert_roster id members db1)
        (record {
          row = rw (lookup-insert id id _ db.queues, ==_refl id) refl;
          roster =
              roster_rows-insert_roster id id members db1
              ∙ rw (==_refl id) (ap (◌++ members) old.roster);
          pending = old.pending;
          own = tt;
        })
        (λ q miss. record {
          row = rw (lookup-insert id q _ db.queues, miss) (m q).row;
          roster =
              roster_rows-insert_roster q id members db1
              ∙ rw miss (append_nil (roster_rows q db.roster) ∙ (m q).roster);
          pending = (m q).pending;
          own = (m q).own;
        })

  -- A message that a mailbox takes.
  pub pending-Mirrors :
      (j : ℕ) (entry : QueueEntry) (pending : List Pending) (envelope : Envelope)
      (queues : Map QueueEntry) (db : Db)
      → lookup j queues ≡ some entry
      → entry.kind ≡ mailbox pending
      → Mirrors codec queues db
      → Mirrors codec
          (insert j
            (record entry { kind = mailbox (pending ++ (envelope.message_id, envelope) ∷ []) })
            queues)
          (insert_pending codec j envelope db)
  unfolding insert_pending
  pending-Mirrors j entry pending envelope queues db found kind m =
      let old = at j entry queues db found m in
      let new_message : Pending = (envelope.message_id, envelope) in
      insert-Mirrors j (record entry { kind = mailbox (pending ++ new_message ∷ []) }) queues
        (insert_pending codec j envelope db)
        (record {
          row =
              old.row
              ∙ ap
                  (λ k.
                    some
                      (entry.send_key, column_at (epoch_column (lookup j db.queues)) (epoch_of k)))
                  kind;
          roster = old.roster ∙ ap roster_of kind;
          pending =
              pending_rows-insert_pending codec j j envelope db
              ∙ rw (==_refl j) (
                  ap (◌++ encoded codec new_message ∷ [])
                    (old.pending ∙ ap (λ k. map (encoded codec) (messages_of k)) kind)
                  ∙ sym (map-append (encoded codec) pending (new_message ∷ [])));
          own =
              All-append IsOwn pending (new_message ∷ [])
                (subst (λ k. All IsOwn (messages_of k)) kind old.own) (refl, tt);
        })
        (λ q miss. record {
          row = (m q).row;
          roster = (m q).roster;
          pending =
              pending_rows-insert_pending codec q j envelope db
              ∙ rw miss (append_nil (pending_rows q db.pending) ∙ (m q).pending);
          own = (m q).own;
        })

  -- An acknowledgement, at a mailbox and elsewhere.
  pub acked-Mirrors :
      (j mid : ℕ) (entry : QueueEntry) (pending : List Pending) (queues : Map QueueEntry) (db : Db)
      → lookup j queues ≡ some entry
      → entry.kind ≡ mailbox pending
      → Mirrors codec queues db
      → Mirrors codec
          (insert j (record entry { kind = mailbox (unacked mid pending) }) queues)
          (delete_pending j mid db)
  unfolding delete_pending unacked
  acked-Mirrors j mid entry pending queues db found kind m =
      let old = at j entry queues db found m in
      insert-Mirrors j (record entry { kind = mailbox (unacked mid pending) }) queues
        (delete_pending j mid db)
        (record {
          row =
              old.row
              ∙ ap
                  (λ k.
                    some
                      (entry.send_key, column_at (epoch_column (lookup j db.queues)) (epoch_of k)))
                  kind;
          roster = old.roster ∙ ap roster_of kind;
          pending =
              pending_rows-delete_pending j j mid db
              ∙ rw (==_refl j) (
                  ap (without mid)
                    (old.pending ∙ ap (λ k. map (encoded codec) (messages_of k)) kind)
                  ∙ without-encoded codec mid pending);
          own =
              All-retain IsOwn (λ m. not (m.0 == mid)) pending
                (subst (λ k. All IsOwn (messages_of k)) kind old.own);
        })
        (λ q miss. record {
          row = (m q).row;
          roster = (m q).roster;
          pending = pending_rows-delete_pending q j mid db ∙ rw miss (m q).pending;
          own = (m q).own;
        })

  -- Without rows there is nothing to delete.
  pub unacked-Mirrors :
      (j mid : ℕ) (queues : Map QueueEntry) (db : Db)
      → pending_at (lookup j queues) ≡ []
      → Mirrors codec queues db
      → Mirrors codec queues (delete_pending j mid db)
  unfolding delete_pending
  unacked-Mirrors j mid queues db none_there m q = record {
    row = (m q).row;
    roster = (m q).roster;
    pending = pending_rows-delete_pending q j mid db ∙ elim (Bool-cases (j == q)) [
      | inl hit ↦ rw hit (
          subst
            (λ i.
              without mid (pending_rows i db.pending)
              ≡ map (encoded codec) (pending_at (lookup i queues)))
            ((==_iff j q).0 hit)
            (ap (without mid) ((m j).pending ∙ ap (map (encoded codec)) none_there)
              ∙ sym (ap (map (encoded codec)) none_there)))
      | inr miss ↦ rw miss (m q).pending
    ];
    own = (m q).own;
  }
