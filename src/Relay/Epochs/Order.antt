-- ===== src/Relay/Epochs/Order.antt =====
-- The commits to a group inbox of relay/src/state.rs, over the histories of the relay.
use rosette.Prelude.{
  ℕ, zero, suc, ◌+◌, ◌-◌, ◌%◌, ◌^◌, ◌<◌, List, [], ◌∷◌, ◌++◌, some, ◌≡◌, refl, ◌∙◌, ap, arith,
  length,
}
use rosette.Relay.State.{Inner, Primitives}
use rosette.Relay.Gate.{set_attestation_key}
use rosette.Relay.Handle.Change.{handle-Change}
use rosette.Relay.Handle.History.{History, Event, start, call, configure}
use rosette.Relay.Epochs.Inbox.{Inbox, inbox_at}
use rosette.Relay.Epochs.Calls.{accepted_commit, Advances, stays, advances, Change-Advances}

-- The epochs of the commits to `q` that were accepted, newest first.
abbrev pub accepted_commits : ℕ → List Event → List ℕ
accepted_commits q [] = []
accepted_commits q (e ∷ events) = accepted_commit q e.message e.reply ++ accepted_commits q events

-- The `n` epochs from `epoch` on, newest first.
abbrev pub epochs_from : ℕ → ℕ → List ℕ
epochs_from epoch zero = []
epochs_from epoch (suc n) = (epoch + n) ∷ epochs_from epoch n

length-epochs_from : (epoch n : ℕ) → length (epochs_from epoch n) ≡ n
length-epochs_from epoch zero = refl
length-epochs_from epoch (suc n) = ap suc (length-epochs_from epoch n)

-- The commits so far, and where the inbox stands.
record Ordered (q : ℕ) (b : Inbox) (events : List Event) (s : Inner) : Type 0 where
  count : ℕ
  bounded : count < suc (length events)
  commits : accepted_commits q events ≡ epochs_from b.epoch count
  inbox : inbox_at q s.queues ≡ some (record b { epoch = b.epoch + count })

module _ (p : Primitives) (q : ℕ) (b : Inbox) where
  Ordered-call :
      {events : List Event} {t u : Inner} (e : Event)
      → (o : Ordered q b events t) → b.epoch + length events < 2 ^ 64 - 1
      → Advances q (record b { epoch = b.epoch + o.count }) u (accepted_commit q e.message e.reply)
      → Ordered q b (e ∷ events) u
  Ordered-call {events} e o fits (stays none_new at) = record {
    count = o.count;
    bounded = omega (arith, o.bounded);
    commits = ap (λ (l : List ℕ). l ++ accepted_commits q events) none_new ∙ o.commits;
    inbox = at;
  }
  Ordered-call {events} e o fits (advances one_new at) =
      let next : (b.epoch + o.count + 1) % 2 ^ 64 ≡ b.epoch + suc o.count =
        omega (arith, o.bounded) in
      record {
        count = suc o.count;
        bounded = omega (arith, o.bounded);
        commits =
            ap (λ (l : List ℕ). l ++ accepted_commits q events) one_new
            ∙ ap (λ l. (b.epoch + o.count) ∷ l) o.commits;
        inbox = at ∙ ap (λ e. some (record b { epoch = e })) next;
      }

  History-Ordered :
      {s t : Inner} {events : List Event}
      → inbox_at q s.queues ≡ some b
      → b.epoch + length events < 2 ^ 64
      → History p s events t
      → Ordered q b events t
  unfolding set_attestation_key
  History-Ordered h fits start = record {
    count = 0;
    bounded = omega arith;
    commits = refl;
    inbox = h ∙ ap (λ e. some (record b { epoch = e })) (omega arith);
  }
  History-Ordered h fits (call {t = t} u e past run) =
      let o = History-Ordered h (omega arith) past in
      Ordered-call e o (omega arith) (
        Change-Advances p e.env q _ t u (handle-Change p e.env e.message e.push_tx t u e.reply run)
          o.inbox)
  History-Ordered h fits (configure key past) =
      let o = History-Ordered h fits past in
      record { count = o.count; bounded = o.bounded; commits = o.commits; inbox = o.inbox }

  -- Over any history from a state in which the group inbox `q` stands at some epoch, where that epoch
  -- and the number of calls add up to less than 2^64, the commits to `q` that the relay accepts are
  -- one for each epoch from that one on, in order and with none left out, whatever the calls and
  -- their senders; at the end the inbox stands at the first epoch that no accepted commit had, with
  -- its send key and roster as they were.
  pub one_commit_per_epoch :
      {s t : Inner} {events : List Event}
      → inbox_at q s.queues ≡ some b
      → b.epoch + length events < 2 ^ 64
      → History p s events t
      → (accepted_commits q events ≡ epochs_from b.epoch (length (accepted_commits q events)))
        × (inbox_at q t.queues
            ≡ some (record b { epoch = b.epoch + length (accepted_commits q events) }))
  one_commit_per_epoch {s} {t} {events} h fits past =
      let o = History-Ordered h fits past in
      let n : length (accepted_commits q events) ≡ o.count =
        ap length o.commits ∙ length-epochs_from b.epoch o.count in
      (rw n o.commits, rw n o.inbox)
