-- ===== src/Engine/Receive/Once.antt =====
-- How often the session of engine/src/chat_engine.rs is given a message.
use rosette.Prelude.{
  ℕ, ◌+◌, ◌≤◌, List, [], ◌∷◌, ◌++◌, Bool, true, false, ◌||◌, Option, none, some, ◌≡◌, refl, arith,
  contains, ◌==◌, ==_iff, ==_refl, if◌then◌else◌, Bool-cases, inl, inr, ◌∙◌,
}
use rosette.Proto.Codec.{Codec}
use rosette.Proto.Envelope.{Envelope}
use rosette.Engine.Receive.{
  Mls, ChatEngine, PersistedEngine, Incoming, AckResult, is_fine, persist, try_ack, surface,
  pump_push, pump_all,
}

abbrev pub count : ℕ → List ℕ → ℕ
count id [] = 0
count id (x ∷ xs) = (if x == id then 1 else 0) + count id xs

count-append : (id : ℕ) (xs ys : List ℕ) → count id (xs ++ ys) ≡ count id xs + count id ys
count-append id [] ys = omega arith
count-append id (x ∷ xs) ys = omega (arith, count-append id xs ys)

pub contains-append :
    (id : ℕ) (xs ys : List ℕ) → contains id (xs ++ ys) ≡ (contains id xs || contains id ys)
contains-append id [] ys = refl
contains-append id (x ∷ xs) ys = ground (arith, contains-append id xs ys)

abbrev pub bit : Bool → ℕ
bit b = if b then 1 else 0

module _ {S : Type 0} (codec : Codec PersistedEngine) (mls : Mls S) where
  -- After the session's answer the seen and the applied messages are as before, and only the message
  -- itself may be acknowledged.
  surface-kept :
      (answer : AckResult) (id : ℕ) (incoming : Option Incoming) (e : ChatEngine S)
      → ((surface codec mls answer id incoming e).0.seen ≡ e.seen)
        × ((surface codec mls answer id incoming e).0.applied ≡ e.applied)
  unfolding surface persist try_ack
  surface-kept answer id none e = (refl, refl)
  surface-kept answer id (some incoming) e = ground arith

  -- A message that is new, given to the session.
  abbrev pub given : Envelope → ChatEngine S → ChatEngine S
  given envelope e = record e {
    seen = e.seen ++ envelope.message_id ∷ [];
    session = (mls.process_incoming envelope.padded_ciphertext e.session).0;
    applied = e.applied ++ envelope.message_id ∷ [];
  }

  pub push-seen :
      (answer : AckResult) (envelope : Envelope) (e : ChatEngine S)
      → contains envelope.message_id e.seen ≡ true
      → pump_push codec mls answer envelope e ≡ try_ack codec mls answer envelope.message_id e
  unfolding pump_push
  push-seen answer envelope e h = rw (h, pump_push) refl

  pub push-new :
      (answer : AckResult) (envelope : Envelope) (e : ChatEngine S)
      → contains envelope.message_id e.seen ≡ false
      → pump_push codec mls answer envelope e
        ≡ surface codec mls answer envelope.message_id
            (mls.process_incoming envelope.padded_ciphertext e.session).1
            (given envelope e)
  unfolding pump_push
  push-new answer envelope e h = rw (h, pump_push) refl

  -- A message was given at most as often as it has been seen since.
  abbrev Spent : ℕ → ℕ → ChatEngine S → Type 0
  Spent i before e = count i e.applied + before ≤ bit (contains i e.seen)

  Spent-given :
      (i before : ℕ) (envelope : Envelope) (e : ChatEngine S)
      → contains envelope.message_id e.seen ≡ false
      → Spent i before e
      → Spent i before (given envelope e)
  Spent-given i before envelope e new h = ground (
    arith,
    count-append i e.applied (envelope.message_id ∷ []),
    contains-append i e.seen (envelope.message_id ∷ []),
    ==_iff envelope.message_id i,
  )

  Spent-push :
      (i before : ℕ) (answer : AckResult) (envelope : Envelope) (e : ChatEngine S)
      → Spent i before e
      → Spent i before (pump_push codec mls answer envelope e).0
  unfolding try_ack
  Spent-push i before answer envelope e h =
      elim (Bool-cases (contains envelope.message_id e.seen)) [
        | inl old ↦ rw (push-seen answer envelope e old) h
        | inr new ↦
            let incoming = (mls.process_incoming envelope.padded_ciphertext e.session).1 in
            let (seen, applied) =
              surface-kept answer envelope.message_id incoming (given envelope e) in
            rw (push-new answer envelope e new, seen, applied)
              (Spent-given i before envelope e new h)
      ]

  Spent-all :
      (i before : ℕ) (pushes : List (AckResult × Envelope)) (e : ChatEngine S)
      → Spent i before e
      → Spent i before (pump_all codec mls pushes e)
  unfolding pump_all
  Spent-all i before [] e h = h
  Spent-all i before ((answer, envelope) ∷ pushes) e h =
      Spent-all i before pushes (pump_push codec mls answer envelope e).0
        (Spent-push i before answer envelope e h)

  -- Whatever is pushed, however often, and however the acknowledgements end, the session is given each
  -- message at most once, and never one that the engine had seen before, as after a restart.
  pub applied_at_most_once :
      (pushes : List (AckResult × Envelope)) (e : ChatEngine S) (i : ℕ)
      → e.applied ≡ []
      → count i (pump_all codec mls pushes e).applied + bit (contains i e.seen) ≤ 1
  applied_at_most_once pushes e i h =
      let first : Spent i (bit (contains i e.seen)) e = rw h (omega arith) in
      let last = Spent-all i (bit (contains i e.seen)) pushes e first in ground (arith, last)

  -- A new message that the session fails on is acknowledged when it is pushed again, and leaves nothing
  -- in the events or in the store: it is among the seen messages since the first time.
  pub failed_push_dropped :
      (answer again : AckResult) (envelope : Envelope) (e : ChatEngine S)
      → contains envelope.message_id e.seen ≡ false
      → (mls.process_incoming envelope.padded_ciphertext e.session).1 ≡ none
      → (pump_push codec mls answer envelope e ≡ (given envelope e, false))
        × (pump_push codec mls again envelope (given envelope e) ≡ (
          record (given envelope e) { acked = e.acked ++ envelope.message_id ∷ [] },
          is_fine codec mls again,
        ))
  unfolding surface try_ack
  failed_push_dropped answer again envelope e new failed =
      let there : contains envelope.message_id (e.seen ++ envelope.message_id ∷ []) ≡ true =
        ground (
          arith,
          contains-append envelope.message_id e.seen (envelope.message_id ∷ []),
          ==_refl envelope.message_id,
        ) in
      (
        push-new answer envelope e new ∙ rw failed refl,
        push-seen again envelope (given envelope e) there,
      )
