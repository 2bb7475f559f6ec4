-- ===== src/Relay/Delivery/Subscribed.antt =====
-- The subscriptions of a connection, as `subscribe` of relay/src/state.rs leaves them.
use rosette.Prelude.{
  ℕ, ◌+◌, List, [], ◌∷◌, ◌++◌, not, ◌&&◌, ◌≡◌, refl, arith, ◌==◌, Bool-cases, inl, inr, ◌∙◌, retain,
  contains, if◌then◌else◌,
}
use rosette.Prelude.Map.{Map, lookup, insert, lookup-insert}
use rosette.Relay.State.{Inner, Env}
use rosette.Relay.Queues.Subscribe.{senders, register, subscribe}
use rosette.Relay.Delivery.Fanned.{times}

times-append : (x : ℕ) (xs ys : List ℕ) → times x (xs ++ ys) ≡ times x xs + times x ys
times-append x [] ys = omega arith
times-append x (y ∷ xs) ys = ground (arith, times-append x xs ys)

module _ (env : Env) (tx : ℕ) where
  -- The senders that `register` leaves for a queue.
  abbrev renewed : List ℕ → List ℕ
  renewed subs =
      retain (λ existing. not (env.closed existing) && not (existing == tx)) subs ++ tx ∷ []

  times-kept :
      (subs : List ℕ)
      → times tx (retain (λ existing. not (env.closed existing) && not (existing == tx)) subs) ≡ 0
  times-kept [] = refl
  times-kept (x ∷ subs) = ground (arith, times-kept subs)

  times-renewed : (subs : List ℕ) → times tx (renewed subs) ≡ 1
  times-renewed subs =
      times-append tx (retain (λ existing. not (env.closed existing) && not (existing == tx)) subs)
        (tx ∷ [])
      ∙ ground (arith, times-kept subs)

  abbrev registrations : ℕ → Map (List ℕ) → ℕ
  registrations q m = times tx (senders (lookup q m))

  registrations-insert :
      (q j : ℕ) (m : Map (List ℕ))
      → registrations q (insert j (renewed (senders (lookup j m))) m)
        ≡ (if j == q then 1 else registrations q m)
  registrations-insert q j m = elim (Bool-cases (j == q)) [
    | inl hit ↦
        rw (lookup-insert j q (renewed (senders (lookup j m))) m, hit)
          (times-renewed (senders (lookup j m)))
    | inr miss ↦ rw (lookup-insert j q (renewed (senders (lookup j m))) m, miss) refl
  ]

  registrations-register :
      (q : ℕ) (ids : List ℕ) (m : Map (List ℕ))
      → registrations q (register env tx ids m) ≡ (if contains q ids then 1 else registrations q m)
  unfolding register
  registrations-register q [] m = refl
  registrations-register q (j ∷ ids) m = ground (
    arith,
    registrations-register q ids (insert j (renewed (senders (lookup j m))) m),
    registrations-insert q j m,
  )

  -- After a connection subscribes, however often it names a queue and was subscribed before, it
  -- stands once among the subscribers of each queue that it names, and for every other queue as
  -- often as before.
  pub subscribe_registers_once :
      (ids : List ℕ) (s : Inner) (q : ℕ)
      → times tx (senders (lookup q (subscribe env ids tx s).subscribers))
        ≡ (if contains q ids then 1 else times tx (senders (lookup q s.subscribers)))
  unfolding subscribe
  subscribe_registers_once ids s q = elim (Bool-cases (env.closed tx)) [
    | inl gone ↦ rw (gone, subscribe) (registrations-register q ids s.subscribers)
    | inr there ↦ rw (there, subscribe) (registrations-register q ids s.subscribers)
  ]
