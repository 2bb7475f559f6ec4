-- ===== src/Relay/Queues/Subscribe.antt =====
-- `subscribe` of relay/src/state.rs. A sender is the number of its channel; a send fails exactly
-- when the channel is closed.
use rosette.Prelude.{
  ℕ, List, [], ◌∷◌, ◌++◌, not, ◌&&◌, Option, none, some, ◌==◌, map, retain, if◌then◌else◌,
}
use rosette.Prelude.Map.{Map, lookup, insert}
use rosette.Relay.State.{Inner, QueueEntry, Pending, Push, mailbox, group_inbox, Env}

-- `entry(qid).or_default()`
abbrev pub senders : Option (List ℕ) → List ℕ
senders none = []
senders (some subs) = subs

unfoldable pub register : Env → ℕ → List ℕ → Map (List ℕ) → Map (List ℕ)
register env tx [] subscribers = subscribers
register env tx (qid ∷ qids) subscribers =
    let kept =
      retain (λ existing. not (env.closed existing) && not (existing == tx))
        (senders (lookup qid subscribers)) in
    register env tx qids (insert qid (kept ++ tx ∷ []) subscribers)

abbrev pub pending_of : Option QueueEntry → List Pending
pending_of none = []
pending_of (some e) = elim e.kind [ mailbox pending ↦ pending | group_inbox _ _ ↦ [] ]

-- The unacknowledged backlogs of the queues, in the order of the request.
unfoldable pub backlog : ℕ → List ℕ → Map QueueEntry → List (ℕ × Push)
backlog tx [] queues = []
backlog tx (qid ∷ qids) queues =
    map (λ m. (tx, (qid, m.0, m.1))) (pending_of (lookup qid queues)) ++ backlog tx qids queues

unfoldable pub subscribe : Env → List ℕ → ℕ → Inner → Inner
unfolding register backlog
subscribe env queue_ids tx s =
    let s' = record s { subscribers = register env tx queue_ids s.subscribers } in
    if env.closed tx then s' else record s' { pushed = s'.pushed ++ backlog tx queue_ids s'.queues }
