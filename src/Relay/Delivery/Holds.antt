-- ===== src/Relay/Delivery/Holds.antt =====
-- What the operations of relay/src/state.rs do to a message that stands in a mailbox.
use rosette.Prelude.{
  ℕ, List, [], ◌∷◌, ◌++◌, Option, none, some, ◌≡◌, ◌≢◌, refl, arith, Bool-cases, ==_iff, subst, sym,
  Option-cases, inl, inr, ◌==◌, ◌∙◌, ap, ◌⊎◌,
}
use rosette.Prelude.Map.{Map, lookup, insert, lookup-insert}
use rosette.Proto.Envelope.{Envelope}
use rosette.Proto.Wire.{GroupSendKind, commit, application}
use rosette.Relay.State.{Inner, QueueEntry, Pending, QueueKind-cases, mailbox, Env}
use rosette.Relay.Limits.{counted, check_and_bump_rate_limit}
use rosette.Relay.Queues.Push.{store, notify, push_and_notify}
use rosette.Relay.Queues.Group.{fan_out, advance, advance_epoch}
use rosette.Relay.Queues.Ack as Acks
use rosette.Relay.Queues.Subscribe.{pending_of}

-- A message stands in a list of pending messages.
abbrev pub HasMessage : ℕ → Envelope → List Pending → Type 0
HasMessage mid envelope [] = ⊥
HasMessage mid envelope (m ∷ ms) = (m ≡ (mid, envelope)) ⊎ HasMessage mid envelope ms

-- The message stands in the mailbox `q`.
abbrev pub Holds : ℕ → ℕ → Envelope → Inner → Type 0
Holds q mid envelope s = HasMessage mid envelope (pending_of (lookup q s.queues))

HasMessage-append :
    (mid : ℕ) (envelope : Envelope) (xs ys : List Pending)
    → HasMessage mid envelope xs
    → HasMessage mid envelope (xs ++ ys)
HasMessage-append mid envelope [] ys h = elim h [ ]
HasMessage-append mid envelope (x ∷ xs) ys (inl e) = inl e
HasMessage-append mid envelope (x ∷ xs) ys (inr h) = inr (HasMessage-append mid envelope xs ys h)

HasMessage-append_last :
    (mid : ℕ) (envelope : Envelope) (xs : List Pending)
    → HasMessage mid envelope (xs ++ (mid, envelope) ∷ [])
HasMessage-append_last mid envelope [] = inl refl
HasMessage-append_last mid envelope (x ∷ xs) = inr (HasMessage-append_last mid envelope xs)

HasMessage-unacked :
    (mid other : ℕ) (envelope : Envelope) (xs : List Pending)
    → mid ≢ other
    → HasMessage mid envelope xs
    → HasMessage mid envelope (Acks.unacked other xs)
unfolding Acks.unacked
HasMessage-unacked mid other envelope [] n h = elim h [ ]
HasMessage-unacked mid other envelope ((m, v) ∷ xs) n (inl e) = elim (Bool-cases (m == other)) [
  | inl hit ↦ absurd (ground (arith, e))
  | inr miss ↦ rw miss (inl e)
]
HasMessage-unacked mid other envelope ((m, v) ∷ xs) n (inr h) =
    let ih = HasMessage-unacked mid other envelope xs n h in
    elim (Bool-cases (m == other)) [ inl hit ↦ rw hit ih | inr miss ↦ rw miss (inr ih) ]

queues-notify :
    (env : Env) (j m : ℕ) (v : Envelope) (s : Inner) → (notify env j m v s).queues ≡ s.queues
unfolding notify
queues-notify env j m v s = ground arith

pending_of-advance :
    (kind : GroupSendKind) (e : QueueEntry)
    → pending_of (some (advance kind e)) ≡ pending_of (some e)
unfolding advance
pending_of-advance application e = refl
pending_of-advance (commit target) e = ground arith

pending_of-check_and_bump :
    (now : ℕ) (e : QueueEntry)
    → pending_of (some (check_and_bump_rate_limit now e).0) ≡ pending_of (some e)
unfolding check_and_bump_rate_limit
pending_of-check_and_bump now e = ground arith

module _ (q mid : ℕ) (envelope : Envelope) where
  abbrev pub In : Option QueueEntry → Type 0
  In o = HasMessage mid envelope (pending_of o)

  In-insert :
      (j : ℕ) (e : QueueEntry) (m : Map QueueEntry)
      → (j ≡ q → In (lookup q m) → In (some e))
      → In (lookup q m)
      → In (lookup q (insert j e m))
  In-insert j e m keeps h = elim (Bool-cases (j == q)) [
    | inl hit ↦ rw (lookup-insert j q e m, hit) (keeps ((==_iff j q).0 hit) h)
    | inr miss ↦ rw (lookup-insert j q e m, miss) h
  ]

  -- A write of an entry that has the messages of the one that it replaces.
  In-rewrite :
      (j : ℕ) (e e' : QueueEntry) (m : Map QueueEntry)
      → lookup j m ≡ some e
      → pending_of (some e') ≡ pending_of (some e)
      → In (lookup q m)
      → In (lookup q (insert j e' m))
  In-rewrite j e e' m found same = In-insert j e' m λ hit h.
      subst (HasMessage mid envelope)
        (ap (λ i. pending_of (lookup i m)) (sym hit) ∙ ap pending_of found ∙ sym same) h

  Holds-store :
      (j m : ℕ) (v : Envelope) (s : Inner)
      → Holds q mid envelope s
      → Holds q mid envelope (store j m v s)
  unfolding store
  Holds-store j m v s h = elim (Option-cases (lookup j s.queues)) [
    | inl e ↦ rw (e, store) h
    | inr (entry, e) ↦ elim (QueueKind-cases entry.kind) [
      | inr (epoch, roster, k) ↦ rw (e, store, k) h
      | inl (pending, k) ↦
          rw (e, store, k)
            (In-insert j (record entry { kind = mailbox (pending ++ (m, v) ∷ []) }) s.queues
              (λ hit i. HasMessage-append mid envelope pending ((m, v) ∷ []) (
                subst (HasMessage mid envelope)
                  (ap (λ i. pending_of (lookup i s.queues)) (sym hit)
                    ∙ ap pending_of e
                    ∙ ground (arith, k))
                  i))
              h)
    ]
  ]

  pub Holds-push_and_notify :
      (env : Env) (j m : ℕ) (v : Envelope) (s : Inner)
      → Holds q mid envelope s
      → Holds q mid envelope (push_and_notify env j m v s)
  unfolding push_and_notify
  Holds-push_and_notify env j m v s h = rw queues-notify (Holds-store j m v s h)

  pub Holds-fan_out :
      (env : Env) (members : List ℕ) (v : Envelope) (s : Inner)
      → Holds q mid envelope s
      → Holds q mid envelope (fan_out env members v s)
  unfolding fan_out
  Holds-fan_out env [] v s h = h
  Holds-fan_out env (m ∷ ms) v s h =
      Holds-fan_out env ms v (push_and_notify env m v.message_id v s)
        (Holds-push_and_notify env m v.message_id v s h)

  pub Holds-advance_epoch :
      (j : ℕ) (kind : GroupSendKind) (s : Inner)
      → Holds q mid envelope s
      → Holds q mid envelope (advance_epoch j kind s)
  unfolding advance_epoch
  Holds-advance_epoch j kind s h = elim (Option-cases (lookup j s.queues)) [
    | inl e ↦ rw (e, advance_epoch) h
    | inr (entry, e) ↦
        rw (e, advance_epoch)
          (In-rewrite j entry (advance kind entry) s.queues e (pending_of-advance kind entry) h)
  ]

  pub Holds-counted :
      (env : Env) (j : ℕ) (entry : QueueEntry) (s : Inner)
      → lookup j s.queues ≡ some entry
      → Holds q mid envelope s
      → Holds q mid envelope (counted env j entry s)
  Holds-counted env j entry s found h =
      In-rewrite j entry (check_and_bump_rate_limit env.instant entry).0 s.queues found
        (pending_of-check_and_bump env.instant entry) h

  pub Holds-ack :
      (j m : ℕ) (s : Inner)
      → ¬ ((j ≡ q) × (m ≡ mid))
      → Holds q mid envelope s
      → Holds q mid envelope (Acks.ack j m s)
  unfolding Acks.ack
  Holds-ack j m s other h = elim (Option-cases (lookup j s.queues)) [
    | inl e ↦ rw (e, Acks.ack) h
    | inr (entry, e) ↦ elim (QueueKind-cases entry.kind) [
      | inr (epoch, roster, k) ↦ rw (e, Acks.ack, k) h
      | inl (pending, k) ↦
          rw (e, Acks.ack, k)
            (In-insert j (record entry { kind = mailbox (Acks.unacked m pending) }) s.queues
              (λ hit i.
                HasMessage-unacked mid m envelope pending (λ n. other (hit, sym n))
                  (subst (HasMessage mid envelope)
                    (ap (λ i. pending_of (lookup i s.queues)) (sym hit)
                      ∙ ap pending_of e
                      ∙ ground (arith, k))
                    i))
              h)
    ]
  ]

  pub Holds-new_queue :
      (id : ℕ) (e : QueueEntry) (s : Inner)
      → lookup id s.queues ≡ none
      → Holds q mid envelope s
      → In (lookup q (insert id e s.queues))
  Holds-new_queue id e s free = In-insert id e s.queues λ hit h. absurd (
      subst (HasMessage mid envelope)
        (ap (λ i. pending_of (lookup i s.queues)) (sym hit) ∙ ap pending_of free) h)
