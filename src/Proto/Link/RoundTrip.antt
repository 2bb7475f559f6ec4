-- ===== src/Proto/Link/RoundTrip.antt =====
-- Links that are accepted, and their round trip through bytes.
use Prim.Native.String.{String}
use rosette.Prelude.{ℕ, List, [], ◌∷◌, false, some, ◌≡◌, ◌≢◌, refl, ◌⊎◌, inl, inr, arith}
use rosette.Proto.Codec.{Codec}
use rosette.Proto.Link.{
  ContactLink, Endpoint, link_version_v1, validate, validated, new, to_bytes, from_bytes, is_empty,
  first, malformed, primary_endpoint,
}

-- What a link that passes `validate` has.
pub record IsValid (link : ContactLink) : Type 0 where
  pub supported : link.version ≡ link_version_v1
  pub reachable : (e : Endpoint) × (primary_endpoint link ≡ some e)
  pub keyed : link.key_package ≢ []

first-eq-some : (es : List Endpoint) → is_empty es ≡ false → (e : Endpoint) × (first es ≡ some e)
unfolding is_empty first
first-eq-some [] h = cc
first-eq-some (e ∷ es) h = (e, refl)

validated-eq-inr :
    (l link : ContactLink) → validated l ≡ inr link → (l ≡ link) × (validate link ≡ inr tt)
unfolding validated
validated-eq-inr l link h = ground arith

validate-IsValid : (link : ContactLink) → validate link ≡ inr tt → IsValid link
unfolding validate primary_endpoint
validate-IsValid link h = record {
  supported = ground arith;
  reachable = first-eq-some link.endpoints (ground arith);
  keyed = λ e. ground arith;
}

module _ (codec : Codec ContactLink) where
  -- Whatever bytes come in, a link that `from_bytes` returns has the supported version, a key
  -- package, and a primary endpoint, so that `primary_endpoint` does not panic on it.
  pub from_bytes-IsValid :
      (bytes : List ℕ) (link : ContactLink) → from_bytes codec bytes ≡ inr link → IsValid link
  unfolding from_bytes
  from_bytes-IsValid bytes link h = go (codec.decode bytes) h
    where
      go :
          (d : String ⊎ ContactLink)
          → (elim d [ inl e ↦ inl (malformed e) | inr l ↦ validated l ]) ≡ inr link
          → IsValid link
      go (inl e) k = cc
      go (inr l) k = validate-IsValid link (validated-eq-inr l link k).1

  -- A link that `new` makes reads back from its bytes, if bincode reads it back from its own encoding.
  from_bytes-to_bytes :
      (kp : List ℕ) (es : List Endpoint) (link : ContactLink)
      → new kp es ≡ inr link
      → codec.decode (codec.encode link) ≡ inr link
      → from_bytes codec (to_bytes codec link) ≡ inr link
  unfolding from_bytes to_bytes new
  from_bytes-to_bytes kp es link h lossless =
      rw (lossless, from_bytes) (rw ((validated-eq-inr _ link h).1, validated) refl)
