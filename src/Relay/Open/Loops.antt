-- ===== src/Relay/Open/Loops.antt =====
-- The loops over the rosters and the messages in `RelayState::open` of relay/src/state.rs.
use rosette.Prelude.{
  ℕ, ◌+◌, ◌%◌, ◌^◌, List, [], ◌∷◌, ◌++◌, Option, none, some, ◌≡◌, refl, sym, ap, ◌∙◌, arith, ◌==◌,
  ==_refl, Bool-cases, inl, inr, map, append_nil, All,
}
use rosette.Prelude.Map.{Map, lookup}
use rosette.Proto.Codec.{Codec}
use rosette.Proto.Envelope.{Envelope}
use rosette.Relay.State.{
  QueueEntry, QueueKind, RosterRow, PendingRow, Pending, mailbox, group_inbox,
}
use rosette.Relay.Queues.Push.{size}
use rosette.Relay.Open.{add_member, load_roster, add_pending, load_pending}
use rosette.Relay.Open.Loaded.{
  on_kind, with_members, with_messages, lookup-add_member, lookup-add_pending,
}
use rosette.Relay.Persist.{roster_rows, pending_rows, encoded, IsOwn}

append_cons {ℓ} : {A : Type ℓ} (xs ys : List A) (x : A) → (xs ++ x ∷ []) ++ ys ≡ xs ++ x ∷ ys
append_cons [] ys x = refl
append_cons (y ∷ xs) ys x = ap (y ∷◌) (append_cons xs ys x)

no_members : (o : Option QueueEntry) → o ≡ on_kind (with_members []) o
no_members none = refl
no_members (some entry) =
    ap (λ k. some (record entry { kind = k })) (sym (unchanged_kind entry.kind))
  where
    unchanged_kind : (k : QueueKind) → with_members [] k ≡ k
    unchanged_kind (mailbox pending) = refl
    unchanged_kind (group_inbox epoch roster) = ap (group_inbox epoch) (append_nil roster)

no_messages : (o : Option QueueEntry) → o ≡ on_kind (with_messages []) o
no_messages none = refl
no_messages (some entry) =
    ap (λ k. some (record entry { kind = k })) (sym (unchanged_kind entry.kind))
  where
    unchanged_kind : (k : QueueKind) → with_messages [] k ≡ k
    unchanged_kind (mailbox pending) = ap mailbox (append_nil pending)
    unchanged_kind (group_inbox epoch roster) = refl

more_members :
    (m : ℕ) (ms : List ℕ) (o : Option QueueEntry)
    → on_kind (with_members ms) (on_kind (with_members (m ∷ [])) o)
      ≡ on_kind (with_members (m ∷ ms)) o
more_members m ms none = refl
more_members m ms (some entry) = ap (λ k. some (record entry { kind = k })) (both entry.kind)
  where
    both : (k : QueueKind) → with_members ms (with_members (m ∷ []) k) ≡ with_members (m ∷ ms) k
    both (mailbox pending) = refl
    both (group_inbox epoch roster) = ap (group_inbox epoch) (append_cons roster ms m)

more_messages :
    (m : Pending) (ms : List Pending) (o : Option QueueEntry)
    → on_kind (with_messages ms) (on_kind (with_messages (m ∷ [])) o)
      ≡ on_kind (with_messages (m ∷ ms)) o
more_messages m ms none = refl
more_messages m ms (some entry) = ap (λ k. some (record entry { kind = k })) (both entry.kind)
  where
    both : (k : QueueKind) → with_messages ms (with_messages (m ∷ []) k) ≡ with_messages (m ∷ ms) k
    both (mailbox pending) = ap mailbox (append_cons pending ms m)
    both (group_inbox epoch roster) = refl

pub lookup-load_roster :
    (q : ℕ) (rows : List RosterRow) (queues : Map QueueEntry)
    → lookup q (load_roster rows queues)
      ≡ on_kind (with_members (roster_rows q rows)) (lookup q queues)
unfolding load_roster roster_rows
lookup-load_roster q [] queues = no_members (lookup q queues)
lookup-load_roster q (row ∷ rows) queues =
    lookup-load_roster q rows (add_member row queues)
    ∙ ap (on_kind (with_members (roster_rows q rows))) (lookup-add_member q row queues)
    ∙ elim (Bool-cases (row.inbox_id == q)) [
      | inl hit ↦ rw hit (more_members row.member_queue (roster_rows q rows) (lookup q queues))
      | inr miss ↦ rw miss refl
    ]

module _ (codec : Codec Envelope)
    (codec_law : (v : Envelope) → codec.decode (codec.encode v) ≡ inr v) where
  -- The rows of a queue are its messages, encoded.
  abbrev pub Holds : ℕ → List PendingRow → List Pending → Type 0
  Holds q rows messages = (pending_rows q rows ≡ map (encoded codec) messages) × All IsOwn messages

  first :
      (mid : ℕ) (bytes : List ℕ) (rest : List (ℕ × List ℕ)) (messages : List Pending)
      → (mid, bytes) ∷ rest ≡ map (encoded codec) messages
      → All IsOwn messages
      → (v : Envelope) × (tail : List Pending) × (messages ≡ (v.message_id, v) ∷ tail)
        × (bytes ≡ codec.encode v)
        × (rest ≡ map (encoded codec) tail)
        × All IsOwn tail
  first mid bytes rest [] h own = absurd (ground arith)
  first mid bytes rest ((m, v) ∷ tail) h own =
      (v, tail, ap (λ i. (i, v) ∷ tail) own.0, cc, cc, own.1)

  -- The rows behind the first one.
  rest-Holds :
      (q : ℕ) (row : PendingRow) (rows : List PendingRow) (messages : List Pending)
      → Holds q (row ∷ rows) messages
      → (tail : List Pending) × Holds q rows tail
  unfolding pending_rows
  rest-Holds q row rows messages h = elim (Bool-cases (row.queue_id == q)) [
    | inl hit ↦
        let (v, tail, same, bytes, rest, own) =
          first row.message_id row.envelope (pending_rows q rows) messages (sym (rw hit refl) ∙ h.0)
            h.1 in
        (tail, (rest, own))
    | inr miss ↦ (messages, (sym (rw miss refl) ∙ h.0, h.1))
  ]

  -- What the loop over `pending` leaves at a queue.
  abbrev pub Reads : List PendingRow → Map QueueEntry → Map QueueEntry → Type 0
  Reads rows queues queues' =
      (q : ℕ) (messages : List Pending)
      → Holds q rows messages
      → lookup q queues' ≡ on_kind (with_messages messages) (lookup q queues)

  cons-Reads :
      (row : PendingRow) (rows : List PendingRow) (v : Envelope) (queues queues' : Map QueueEntry)
      → codec.decode row.envelope ≡ inr v
      → Reads rows (add_pending row.queue_id v queues) queues'
      → Reads (row ∷ rows) queues queues'
  unfolding pending_rows
  cons-Reads row rows v queues queues' decoded reads q messages h =
      elim (Bool-cases (row.queue_id == q)) [
        | inl hit ↦
            let (w, tail, same, bytes, rest, own) =
              first row.message_id row.envelope (pending_rows q rows) messages
                (sym (rw hit refl) ∙ h.0) h.1 in
            let agree : inr w ≡ inr v = sym (ap codec.decode bytes ∙ codec_law w) ∙ decoded in
            let equal : w ≡ v = ground arith in
            let messages_v : messages ≡ (v.message_id, v) ∷ tail =
              same ∙ ap (λ u. (u.message_id, u) ∷ tail) equal in
            rw messages_v (
              reads q tail (rest, own)
              ∙ ap (on_kind (with_messages tail))
                  (lookup-add_pending q row.queue_id v queues ∙ rw hit refl)
              ∙ more_messages (v.message_id, v) tail (lookup q queues))
        | inr miss ↦
            reads q messages (sym (rw miss refl) ∙ h.0, h.1)
            ∙ ap (on_kind (with_messages messages))
                (lookup-add_pending q row.queue_id v queues ∙ rw miss refl)
      ]

  pub load_pending-Reads :
      (rows : List PendingRow) (used : ℕ) (queues : Map QueueEntry)
      → ((q : ℕ) → (messages : List Pending) × Holds q rows messages)
      → (used' : ℕ) × (queues' : Map QueueEntry) × (load_pending codec rows used queues
          ≡ some (used', queues'))
        × Reads rows queues queues'
  unfolding load_pending pending_rows
  load_pending-Reads [] used queues h = (used, queues, refl, none_read)
    where
      none_read : Reads [] queues queues
      none_read q [] held = no_messages (lookup q queues)
      none_read q (m ∷ messages) held = absurd (ground (arith, held.0))
  load_pending-Reads (row ∷ rows) used queues h =
      let (messages, held) = h row.queue_id in
      let (v, tail, same, bytes, rest, own) =
        first row.message_id row.envelope (pending_rows row.queue_id rows) messages
          (sym (rw (==_refl row.queue_id) refl) ∙ held.0) held.1 in
      let decoded = ap codec.decode bytes ∙ codec_law v in
      let (used', queues', done, reads) =
        load_pending-Reads rows ((used + size v) % 2 ^ 64) (add_pending row.queue_id v queues)
          (λ q. let (ms, there) = h q in rest-Holds q row rows ms there) in
      (
        used',
        queues',
        rw (decoded, load_pending) done,
        cons-Reads row rows v queues queues' decoded reads,
      )
