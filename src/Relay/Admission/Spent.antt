-- ===== src/Relay/Admission/Spent.antt =====
-- Spent tokens: what the attestation gate of relay/src/state.rs remembers of them.
use rosette.Prelude.{
  ℕ, List, [], ◌∷◌, Option, none, some, ◌≡◌, refl, arith, true, ◌||◌, not, Option-cases, Bool-cases,
  inl, inr, ◌∙◌, sym, ap,
}
use rosette.Prelude.Int.{ℤ, leb_ℤ, ltb_ℤ, pos, negsuc, not-leb_ℤ}
use rosette.Prelude.Map.{lookup, erase, retain_values, lookup-insert, has_key-lookup}
use rosette.Prelude.Map.Size.{lookup-retain_values}
use rosette.Proto.Error.{ok, err, invalid_attestation}
use rosette.Proto.Pow.{PowSolution}
use rosette.Proto.Attestation.{AttestationToken, is_expired, signature_valid}
use rosette.Proto.Wire.{ClientMessage}
use rosette.Relay.State.{Inner, Primitives, Env}
use rosette.Relay.Gate.{
  spend, check_token, consume_attestation, consume_pow, issue_pow_challenge, evict, evict_oldest,
  set_attestation_key,
}
use rosette.Relay.Queues.Create.{admit}
use rosette.Relay.Handle.Gate.{GateChange, kept, issued, admitted, handle-GateChange}
use rosette.Relay.Handle.History.{History, Event, start, call, configure}

-- The wall clock at the newest event, and that it has not gone back since `since`.
abbrev pub latest : ℤ → List Event → ℤ
latest since [] = since
latest since (e ∷ events) = e.env.unix

abbrev pub IsMonotone : ℤ → List Event → Type 0
IsMonotone since [] = Unit
IsMonotone since (e ∷ events) =
    (leb_ℤ (latest since events) e.env.unix ≡ true) × IsMonotone since events

-- A nonce is remembered at least as long as its token lives.
abbrev pub IsSpent : ℕ → ℤ → ℤ → Inner → Type 0
IsSpent nonce expires_at now s =
    ltb_ℤ now expires_at ≡ true → lookup nonce s.spent_tokens ≡ some expires_at

ltb_ℤ_of_leb : (x y z : ℤ) → leb_ℤ x y ≡ true → ltb_ℤ y z ≡ true → ltb_ℤ x z ≡ true
ltb_ℤ_of_leb (pos a) (pos b) (pos c) h k = ground arith
ltb_ℤ_of_leb (pos a) (pos b) (negsuc c) h k = cc
ltb_ℤ_of_leb (pos a) (negsuc b) z h k = cc
ltb_ℤ_of_leb (negsuc a) (pos b) (pos c) h k = refl
ltb_ℤ_of_leb (negsuc a) (pos b) (negsuc c) h k = cc
ltb_ℤ_of_leb (negsuc a) (negsuc b) (pos c) h k = refl
ltb_ℤ_of_leb (negsuc a) (negsuc b) (negsuc c) h k = ground arith

spent_tokens-evict : (order : List ℕ) (s : Inner) → (evict order s).spent_tokens ≡ s.spent_tokens
unfolding evict
spent_tokens-evict [] s = refl
spent_tokens-evict (oldest ∷ rest) s = ground (
  arith,
  spent_tokens-evict rest (record s {
    outstanding_challenges = erase oldest s.outstanding_challenges;
    challenge_order = rest;
  }),
)

module _ (nonce : ℕ) (expires_at : ℤ) where
  spend-IsSpent :
      (env : Env) (now : ℤ) (token : AttestationToken) (s : Inner)
      → leb_ℤ now env.unix ≡ true
      → IsSpent nonce expires_at now s
      → IsSpent nonce expires_at env.unix (spend env token s).0
  unfolding spend
  spend-IsSpent env now token s le h alive =
      let live = retain_values (λ exp. ltb_ℤ env.unix exp) s.spent_tokens in
      let still : lookup nonce live ≡ some expires_at =
        lookup-retain_values (λ exp. ltb_ℤ env.unix exp) nonce expires_at s.spent_tokens
          (h (ltb_ℤ_of_leb now env.unix expires_at le alive)) alive in
      ground (
        arith,
        still,
        has_key-lookup token.nonce live,
        has_key-lookup nonce live,
        lookup-insert token.nonce nonce token.expires_at live,
      )

  -- A token that `spend` accepts is spent.
  spend-spends :
      (env : Env) (token : AttestationToken) (s : Inner)
      → token.nonce ≡ nonce
      → token.expires_at ≡ expires_at
      → (spend env token s).1 ≡ ok tt
      → IsSpent nonce expires_at env.unix (spend env token s).0
  unfolding spend
  spend-spends env token s n e h alive =
      let live = retain_values (λ exp. ltb_ℤ env.unix exp) s.spent_tokens in
      ground (arith, lookup-insert token.nonce nonce token.expires_at live)

  later-IsSpent :
      (now later : ℤ) (s s' : Inner)
      → leb_ℤ now later ≡ true
      → s'.spent_tokens ≡ s.spent_tokens
      → IsSpent nonce expires_at now s
      → IsSpent nonce expires_at later s'
  later-IsSpent now later s s' le same h alive =
      rw same (h (ltb_ℤ_of_leb now later expires_at le alive))

  module _ (p : Primitives) (env : Env) where
    consume-IsSpent :
        (now : ℤ) (token : Option AttestationToken) (s : Inner)
        → leb_ℤ now env.unix ≡ true
        → IsSpent nonce expires_at now s
        → IsSpent nonce expires_at env.unix (consume_attestation p env token s).0
    unfolding consume_attestation check_token
    consume-IsSpent now token s le h = elim (Option-cases s.attestation_key) [
      | inl off ↦ rw (off, consume_attestation) (later-IsSpent now env.unix s s le refl h)
      | inr (key, on) ↦ rw (on, consume_attestation) (gated token key)
    ]
      where
        gated :
            (token : Option AttestationToken) (key : ℕ)
            → IsSpent nonce expires_at env.unix (check_token p env token key s).0
        gated none key = later-IsSpent now env.unix s s le refl h
        gated (some t) key =
            elim (Bool-cases (is_expired t env.unix || not (signature_valid p.ed t key))) [
              | inl bad ↦ rw bad (later-IsSpent now env.unix s s le refl h)
              | inr good ↦ rw good (spend-IsSpent env now t s le h)
            ]

    -- A token that passes an active gate is spent.
    pub consume-spends :
        (token : AttestationToken) (key : ℕ) (s : Inner)
        → s.attestation_key ≡ some key
        → token.nonce ≡ nonce
        → token.expires_at ≡ expires_at
        → (consume_attestation p env (some token) s).1 ≡ ok tt
        → IsSpent nonce expires_at env.unix (consume_attestation p env (some token) s).0
    unfolding consume_attestation
    consume-spends token key s on n e h =
        elim (Bool-cases (is_expired token env.unix || not (signature_valid p.ed token key))) [
          | inl bad ↦ absurd (ground (arith, on))
          | inr good ↦
              rw (on, consume_attestation, good) (spend-spends env token s n e (ground (arith, on)))
        ]

    -- A spent token does not pass it.
    pub consume_refuses :
        (now : ℤ) (token : AttestationToken) (key : ℕ) (s : Inner)
        → s.attestation_key ≡ some key
        → token.nonce ≡ nonce
        → token.expires_at ≡ expires_at
        → leb_ℤ now env.unix ≡ true
        → IsSpent nonce expires_at now s
        → (consume_attestation p env (some token) s).1 ≡ err invalid_attestation
    unfolding consume_attestation spend
    consume_refuses now token key s on n e le h = elim (Bool-cases (is_expired token env.unix)) [
      | inl old ↦ ground (arith, on)
      | inr young ↦
          let alive : ltb_ℤ env.unix expires_at ≡ true =
            not-leb_ℤ expires_at env.unix (ap (λ x. leb_ℤ x env.unix) (sym e) ∙ young) in
          let live = retain_values (λ exp. ltb_ℤ env.unix exp) s.spent_tokens in
          let still : lookup nonce live ≡ some expires_at =
            lookup-retain_values (λ exp. ltb_ℤ env.unix exp) nonce expires_at s.spent_tokens
              (h (ltb_ℤ_of_leb now env.unix expires_at le alive)) alive in
          ground (arith, on, still, has_key-lookup nonce live)
    ]

    spent_tokens-consume_pow :
        (solution : PowSolution) (s : Inner)
        → (consume_pow p solution s).0.spent_tokens ≡ s.spent_tokens
    unfolding consume_pow
    spent_tokens-consume_pow solution s = ground arith

    pub spent_tokens-admit :
        (solution : PowSolution) (token : Option AttestationToken) (s : Inner)
        → (admit p env solution token s).0.spent_tokens
          ≡ (consume_attestation p env token s).0.spent_tokens
    unfolding admit
    spent_tokens-admit solution token s =
        ground (arith, spent_tokens-consume_pow solution (consume_attestation p env token s).0)

    Gate-IsSpent :
        {msg : ClientMessage} (now : ℤ) (s s' : Inner)
        → leb_ℤ now env.unix ≡ true
        → GateChange p env s s' msg
        → IsSpent nonce expires_at now s
        → IsSpent nonce expires_at env.unix s'
    unfolding issue_pow_challenge evict_oldest
    Gate-IsSpent now s s' le (kept k) h = later-IsSpent now env.unix s s' le k.spent h
    Gate-IsSpent now s s' le (issued same) h =
        later-IsSpent now env.unix s s' le
          (ap (λ (x : Inner). x.spent_tokens) same ∙ spent_tokens-evict s.challenge_order s) h
    Gate-IsSpent now s s' le (admitted solution token k) h = λ alive.
        rw (k.spent, spent_tokens-admit solution token s) (consume-IsSpent now token s le h alive)

  pub History-IsSpent :
      (p : Primitives) (now : ℤ) {s t : Inner} {events : List Event}
      → IsMonotone now events
      → IsSpent nonce expires_at now s
      → History p s events t
      → IsSpent nonce expires_at (latest now events) t
  unfolding set_attestation_key
  History-IsSpent p now m h start = h
  History-IsSpent p now m h (call {events = events} {t = t} u e past run) =
      Gate-IsSpent p e.env (latest now events) t u m.0
        (handle-GateChange p e.env e.message e.push_tx t u e.reply run)
        (History-IsSpent p now m.1 h past)
  History-IsSpent p now m h (configure key past) = History-IsSpent p now m h past
