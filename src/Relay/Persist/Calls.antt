-- ===== src/Relay/Persist/Calls.antt =====
-- The tables beside the queues after each operation of relay/src/state.rs.
use rosette.Prelude.{
  ℕ, List, [], ◌∷◌, Bool, ◌≡◌, refl, sym, ap, ◌∙◌, subst, arith, ◌==◌, ==_iff, retain,
  if◌then◌else◌, Bool-cases, Option-cases, inl, inr,
}
use rosette.Prelude.Map.{lookup, lookup-insert}
use rosette.Proto.Codec.{Codec}
use rosette.Proto.Envelope.{Envelope}
use rosette.Relay.State.{Inner, QueueKind-cases, Db, Env}
use rosette.Relay.Queues.Tables.{insert_pending}
use rosette.Relay.Queues.Push.{store, notify, push_and_notify}
use rosette.Relay.Queues.Group.{is_mailbox, stored_targets, insert_pendings, fan_out}
use rosette.Relay.Persist.{Mirrors}
use rosette.Relay.Persist.Mirror.{pending-Mirrors}

pub retain_same :
    (p p' : ℕ → Bool) → ((i : ℕ) → p i ≡ p' i) → (xs : List ℕ) → retain p xs ≡ retain p' xs
retain_same p p' h [] = refl
retain_same p p' h (x ∷ xs) = rw (h x, retain_same p p' h xs) refl

module _ (codec : Codec Envelope) (env : Env) (v : Envelope) where
  abbrev pub push : ℕ → Inner → Inner
  push q s = push_and_notify env q v.message_id v s

  abbrev pub put_row : ℕ → Inner → Db → Db
  put_row q s db = if is_mailbox (lookup q s.queues) then insert_pending codec q v db else db

  queues-push : (q : ℕ) (s : Inner) → (push q s).queues ≡ (store q v.message_id v s).queues
  unfolding push_and_notify notify
  queues-push q s = ground arith

  pub db-push : (q : ℕ) (s : Inner) → (push q s).db ≡ s.db
  unfolding push_and_notify notify store
  db-push q s = ground arith

  store-Mirrors :
      (q : ℕ) (s : Inner) (db : Db)
      → Mirrors codec s.queues db
      → Mirrors codec (store q v.message_id v s).queues (put_row q s db)
  unfolding store
  store-Mirrors q s db m = elim (Option-cases (lookup q s.queues)) [
    | inl e ↦ rw (e, store) m
    | inr (entry, e) ↦ elim (QueueKind-cases entry.kind) [
      | inl (pending, k) ↦
          rw (e, k, store) (pending-Mirrors codec q entry pending v s.queues db e k m)
      | inr (epoch, roster, k) ↦ rw (e, k, store) m
    ]
  ]

  pub push-Mirrors :
      (q : ℕ) (s : Inner) (db : Db)
      → Mirrors codec s.queues db
      → Mirrors codec (push q s).queues (put_row q s db)
  push-Mirrors q s db m =
      subst (λ queues. Mirrors codec queues (put_row q s db)) (sym (queues-push q s))
        (store-Mirrors q s db m)

  is_mailbox-store :
      (q i : ℕ) (s : Inner)
      → is_mailbox (lookup i (store q v.message_id v s).queues) ≡ is_mailbox (lookup i s.queues)
  unfolding store
  is_mailbox-store q i s = elim (Option-cases (lookup q s.queues)) [
    | inl e ↦ rw (e, store) refl
    | inr (entry, e) ↦ elim (QueueKind-cases entry.kind) [
      | inr (epoch, roster, k) ↦ rw (e, k, store) refl
      | inl (pending, k) ↦
          rw (e, k, store)
            (ap is_mailbox (lookup-insert q i _ s.queues) ∙ elim (Bool-cases (q == i)) [
              | inl hit ↦ rw hit (
                  sym (
                    ap (λ n. is_mailbox (lookup n s.queues)) (sym ((==_iff q i).0 hit))
                    ∙ rw (e, k) refl))
              | inr miss ↦ rw miss refl
            ])
    ]
  ]

  stored_targets-push :
      (q : ℕ) (members : List ℕ) (s : Inner)
      → stored_targets (push q s).queues members ≡ stored_targets s.queues members
  unfolding stored_targets
  stored_targets-push q members s =
      retain_same (λ i. is_mailbox (lookup i (push q s).queues))
        (λ i. is_mailbox (lookup i s.queues))
        (λ i.
          ap (λ queues. is_mailbox (lookup i queues)) (queues-push q s) ∙ is_mailbox-store q i s)
        members

  rows-of_next :
      (q : ℕ) (members : List ℕ) (s : Inner) (db : Db)
      → insert_pendings codec (stored_targets s.queues members) v (put_row q s db)
        ≡ insert_pendings codec (stored_targets s.queues (q ∷ members)) v db
  unfolding stored_targets insert_pendings
  rows-of_next q members s db = elim (Bool-cases (is_mailbox (lookup q s.queues))) [
    | inl e ↦ rw (e, insert_pendings) refl
    | inr e ↦ rw e refl
  ]

  pub fan_out-Mirrors :
      (members : List ℕ) (s : Inner) (db : Db)
      → Mirrors codec s.queues db
      → Mirrors codec
          (fan_out env members v s).queues
          (insert_pendings codec (stored_targets s.queues members) v db)
  unfolding fan_out stored_targets insert_pendings
  fan_out-Mirrors [] s db m = m
  fan_out-Mirrors (q ∷ members) s db m =
      subst (Mirrors codec (fan_out env members v (push q s)).queues)
        (ap (λ targets. insert_pendings codec targets v (put_row q s db))
            (stored_targets-push q members s)
          ∙ rows-of_next q members s db)
        (fan_out-Mirrors members (push q s) (put_row q s db) (push-Mirrors q s db m))

  pub db-fan_out : (members : List ℕ) (s : Inner) → (fan_out env members v s).db ≡ s.db
  unfolding fan_out
  db-fan_out [] s = refl
  db-fan_out (q ∷ members) s = db-fan_out members (push q s) ∙ db-push q s
