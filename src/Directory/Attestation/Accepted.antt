-- ===== src/Directory/Attestation/Accepted.antt =====
-- The tokens of directory/src/attestation.rs at the gate of relay/src/state.rs (`consume_attestation`).
use rosette.Prelude.{
  ℕ, ◌+◌, List, [], ◌∷◌, ◌++◌, map, Bool, true, false, some, ◌≡◌, refl, arith, sym, ap, ◌∙◌, subst,
}
use rosette.Prelude.Int.{ℤ, pos, leb_ℤ, ltb_ℤ}
use rosette.Prelude.Map.{Map, has_key, retain_values}
use rosette.Proto.Error.{ok}
use rosette.Proto.Attestation.{VerifiesSigned, AttestationToken, sign, signature_valid}
use rosette.Proto.Attestation.Payload.{signature_valid-sign}
use rosette.Relay.State.{Inner, Primitives, Env}
use rosette.Relay.Gate.{consume_attestation, check_token, spend}
use rosette.Directory.Attestation.{mint_batch, token_ttl_secs, draws, batch_size}

-- An element of a mapped list is the image of one.
map-element :
    (f : ℕ → AttestationToken) (xs : List ℕ) (before after : List AttestationToken)
    (t : AttestationToken)
    → map f xs ≡ before ++ (t ∷ after)
    → (n : ℕ) × (f n ≡ t)
map-element f [] [] after t e = cc
map-element f [] (b ∷ before) after t e = cc
map-element f (x ∷ xs) [] after t e = (x, cc)
map-element f (x ∷ xs) (b ∷ before) after t e = map-element f xs before after t cc

-- A nonce that is not in the set is in no part of it.
has_key-retain_values :
    (keeps : ℤ → Bool) (n : ℕ) (m : Map ℤ)
    → has_key n m ≡ false
    → has_key n (retain_values keeps m) ≡ false
unfolding has_key retain_values
has_key-retain_values keeps n [] h = refl
has_key-retain_values keeps n ((j, v) ∷ m) h = ground (arith, has_key-retain_values keeps n m)

-- A token of a batch is good for a queue at a relay that has the directory's public key, until thirty
-- days after it was minted, if its nonce has not been spent there: the gate lets the request through.
pub minted_tokens_accepted :
    (p : Primitives) (env : Env) (s : Inner) (now key : ℕ) (rng : ℕ → ℕ)
    (before after : List AttestationToken) (t : AttestationToken)
    → VerifiesSigned p.ed
    → mint_batch p.ed now rng key ≡ before ++ (t ∷ after)
    → s.attestation_key ≡ some (p.ed.verifying_key key)
    → leb_ℤ (pos (now + token_ttl_secs)) env.unix ≡ false
    → has_key t.nonce s.spent_tokens ≡ false
    → (consume_attestation p env (some t) s).1 ≡ ok tt
unfolding mint_batch consume_attestation check_token spend
minted_tokens_accepted p env s now key rng before after t v batch set young fresh =
    let (n, is) =
      map-element (λ nonce. sign p.ed key nonce (pos (now + token_ttl_secs))) (draws batch_size rng)
        before after t batch in
    let valid : signature_valid p.ed t (p.ed.verifying_key key) ≡ true =
      subst (λ x. signature_valid p.ed x (p.ed.verifying_key key) ≡ true) is
        (signature_valid-sign p.ed v key n (pos (now + token_ttl_secs))) in
    let alive : leb_ℤ t.expires_at env.unix ≡ false =
      ap (λ (x : AttestationToken). leb_ℤ x.expires_at env.unix) (sym is)
      ∙ (unfold sign in young) in
    let unspent = has_key-retain_values (λ exp. ltb_ℤ env.unix exp) t.nonce s.spent_tokens fresh in
    ground (arith, set, valid, alive, unspent)
