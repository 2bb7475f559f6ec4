-- ===== src/Relay/Admission/Challenges.antt =====
-- Proof-of-work challenges of relay/src/state.rs, over the histories of the relay.
use rosette.Prelude.{
  ℕ, ◌<◌, ◌≤◌, List, [], ◌∷◌, ◌++◌, Option, none, some, ◌≡◌, refl, arith, length, length-append,
  contains, true, leb, Option-cases, inl, inr, Bool-cases,
}
use rosette.Prelude.Map.{lookup, erase, HasDistinctKeys, lookup-erase}
use rosette.Prelude.Map.Size.{
  KeysIn, has_key-insert, has_key-erase, insert-HasDistinctKeys, erase-HasDistinctKeys,
  length-le-length_keys,
}
use rosette.Proto.Limits.{max_outstanding_pow_challenges}
use rosette.Proto.Error.{Result-cases, ok, err, invalid_proof_of_work}
use rosette.Proto.Pow.{PowSolution, verify}
use rosette.Proto.Attestation.{AttestationToken}
use rosette.Proto.Wire.{ClientMessage}
use rosette.Relay.State.{Inner, Primitives, Env}
use rosette.Relay.Gate.{
  evict, evict_oldest, issue_pow_challenge, consume_pow, consume_attestation, set_attestation_key,
}
use rosette.Relay.Queues.Create.{admit}
use rosette.Relay.Handle.Gate.{GateChange, kept, issued, admitted, handle-GateChange}
use rosette.Relay.Handle.History.{History, Event, start, call, configure}

-- The outstanding challenges are distinct, stand in the order list, and that list is bounded.
pub record IsTracked (s : Inner) : Type 0 where
  pub distinct : HasDistinctKeys s.outstanding_challenges
  pub listed : KeysIn s.outstanding_challenges s.challenge_order
  pub bounded : length s.challenge_order ≤ max_outstanding_pow_challenges

contains-append : (k : ℕ) (xs ys : List ℕ) → contains k xs ≡ true → contains k (xs ++ ys) ≡ true
contains-append k [] ys h = cc
contains-append k (x ∷ xs) ys h = ground (arith, contains-append k xs ys)

contains-append_last : (k : ℕ) (xs : List ℕ) → contains k (xs ++ k ∷ []) ≡ true
contains-append_last k [] = ground arith
contains-append_last k (x ∷ xs) = ground (arith, contains-append_last k xs)

-- Eviction leaves room for one more, and drops from the map what it drops from the list.
record IsEvicted (s : Inner) : Type 0 where
  distinct : HasDistinctKeys s.outstanding_challenges
  listed : KeysIn s.outstanding_challenges s.challenge_order
  room : length s.challenge_order < max_outstanding_pow_challenges

evict-IsEvicted :
    (order : List ℕ) (s : Inner)
    → s.challenge_order ≡ order
    → HasDistinctKeys s.outstanding_challenges
    → KeysIn s.outstanding_challenges order
    → IsEvicted (evict order s)
unfolding evict
evict-IsEvicted [] s e d k = record {
  distinct = d;
  listed = λ i h. rw e (k i h);
  room = rw e (omega arith);
}
evict-IsEvicted (oldest ∷ rest) s e d k =
    elim (Bool-cases (leb max_outstanding_pow_challenges (length (oldest ∷ rest)))) [
      | inl full ↦ rw full (
          evict-IsEvicted rest
            (record s {
              outstanding_challenges = erase oldest s.outstanding_challenges;
              challenge_order = rest;
            })
            refl (erase-HasDistinctKeys oldest s.outstanding_challenges d)
            (λ i h. ground (arith, k i, has_key-erase oldest i s.outstanding_challenges)))
      | inr free ↦
          rw free
            (record { distinct = d; listed = λ i h. rw e (k i h); room = rw e (ground arith) })
    ]

issue-IsTracked : (env : Env) (s : Inner) → IsTracked s → IsTracked (issue_pow_challenge env s).0
unfolding issue_pow_challenge evict_oldest
issue-IsTracked env s t =
    let v = evict-IsEvicted s.challenge_order s refl t.distinct t.listed in
    let s' = evict s.challenge_order s in
    let c = env.challenge_draw in
    record {
      distinct = insert-HasDistinctKeys c _ s'.outstanding_challenges v.distinct;
      listed = λ i h. ground (
        arith,
        has_key-insert c i 16 s'.outstanding_challenges,
        v.listed i,
        contains-append i s'.challenge_order (c ∷ []),
        contains-append_last c s'.challenge_order,
      );
      bounded = omega (arith, v.room, length-append s'.challenge_order (c ∷ []));
    }

module _ (p : Primitives) (env : Env) where
  consume_attestation-tracked :
      (token : Option AttestationToken) (s : Inner)
      → ((consume_attestation p env token s).0.outstanding_challenges ≡ s.outstanding_challenges)
        × ((consume_attestation p env token s).0.challenge_order ≡ s.challenge_order)
  unfolding consume_attestation
  consume_attestation-tracked none s = ground arith
  consume_attestation-tracked (some token) s = ground arith

  consume_pow-IsTracked :
      (solution : PowSolution) (s : Inner) → IsTracked s → IsTracked (consume_pow p solution s).0
  unfolding consume_pow
  consume_pow-IsTracked solution s t =
      elim (Option-cases (lookup solution.challenge s.outstanding_challenges)) [
        | inl e ↦ rw (e, consume_pow) t
        | inr (d, e) ↦
            rw (e, consume_pow)
              (record {
                distinct =
                    erase-HasDistinctKeys solution.challenge s.outstanding_challenges t.distinct;
                listed = λ i h. ground (
                  arith,
                  has_key-erase solution.challenge i s.outstanding_challenges,
                  t.listed i,
                );
                bounded = t.bounded;
              })
      ]

  same-IsTracked :
      (s s' : Inner)
      → s'.outstanding_challenges ≡ s.outstanding_challenges
      → s'.challenge_order ≡ s.challenge_order
      → IsTracked s
      → IsTracked s'
  same-IsTracked s s' e f t = record {
    distinct = rw e t.distinct;
    listed = λ i h. rw f (t.listed i (rw e at h));
    bounded = rw f t.bounded;
  }

  admit-IsTracked :
      (solution : PowSolution) (token : Option AttestationToken) (s : Inner)
      → IsTracked s
      → IsTracked (admit p env solution token s).0
  unfolding admit
  admit-IsTracked solution token s t =
      let (e, f) = consume_attestation-tracked token s in
      let t' = same-IsTracked s (consume_attestation p env token s).0 e f t in
      elim (Result-cases (consume_attestation p env token s).1) [
        | inl (done, r) ↦
            rw (r, admit) (consume_pow-IsTracked solution (consume_attestation p env token s).0 t')
        | inr (code, r) ↦ rw (r, admit) t'
      ]

  Gate-IsTracked :
      {msg : ClientMessage} (s s' : Inner) → GateChange p env s s' msg → IsTracked s → IsTracked s'
  Gate-IsTracked s s' (kept k) t = same-IsTracked s s' k.outstanding k.order t
  Gate-IsTracked s s' (issued same) t = rw same (issue-IsTracked env s t)
  Gate-IsTracked s s' (admitted solution token k) t =
      same-IsTracked (admit p env solution token s).0 s' k.outstanding k.order
        (admit-IsTracked solution token s t)

History-IsTracked :
    (p : Primitives) {s t : Inner} {events : List Event}
    → IsTracked s
    → History p s events t
    → IsTracked t
unfolding set_attestation_key
History-IsTracked p i start = i
History-IsTracked p i (call {t = t} u e past run) =
    Gate-IsTracked p e.env t u (handle-GateChange p e.env e.message e.push_tx t u e.reply run)
      (History-IsTracked p i past)
History-IsTracked p i (configure key past) =
    let ih = History-IsTracked p i past in
    record { distinct = ih.distinct; listed = ih.listed; bounded = ih.bounded }

-- Over any history from a state that tracks its challenges the relay goes on tracking them: the
-- outstanding challenges are distinct, each stands in the order list, and neither they nor the list
-- are more than `MAX_OUTSTANDING_POW_CHALLENGES`, however many are requested and left unsolved.
pub challenges_bounded :
    (p : Primitives) {s t : Inner} {events : List Event}
    → IsTracked s
    → History p s events t
    → IsTracked t × (length t.outstanding_challenges ≤ max_outstanding_pow_challenges)
challenges_bounded p {s} {t} i past =
    let v = History-IsTracked p i past in
    (
      v,
      omega (
        arith,
        length-le-length_keys t.outstanding_challenges t.challenge_order v.distinct v.listed,
        v.bounded,
      ),
    )

-- A creation whose checks pass has solved a challenge that was outstanding, at the difficulty that
-- was issued; after it the challenge is not outstanding, and a second solution of it, by whatever nonce, is
-- refused.
pub admit_spends_challenge :
    (p : Primitives) (env : Env) (solution : PowSolution) (token : Option AttestationToken)
    (s : Inner) (again : ℕ)
    → (admit p env solution token s).1 ≡ ok tt
    → (difficulty : ℕ) × (lookup solution.challenge s.outstanding_challenges ≡ some difficulty)
      × (verify p.sha256
            (record { challenge = solution.challenge; difficulty = difficulty })
            solution
          ≡ true)
      × (lookup solution.challenge (admit p env solution token s).0.outstanding_challenges ≡ none)
      × ((consume_pow p
            (record { challenge = solution.challenge; nonce = again })
            (admit p env solution token s).0).1
          ≡ err invalid_proof_of_work)
unfolding admit consume_pow
admit_spends_challenge p env solution token s again h =
    let (e, f) = consume_attestation-tracked p env token s in
    let t = (consume_attestation p env token s).0 in
    elim (Option-cases (lookup solution.challenge s.outstanding_challenges)) [
      | inl n ↦ absurd (ground (arith, e))
      | inr (d, n) ↦ (
        d,
        n,
        ground (arith, e),
        ground
            (arith, e, lookup-erase solution.challenge solution.challenge t.outstanding_challenges),
        ground
            (arith, e, lookup-erase solution.challenge solution.challenge t.outstanding_challenges),
      )
    ]
