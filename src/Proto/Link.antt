-- ===== src/Proto/Link.antt =====
-- proto/src/link.rs: contact links.
pub mod RoundTrip
use Prim.Native.String.{String}
use rosette.Prelude.{
  ℕ, List, [], ◌∷◌, Bool, Option, none, some, ◌==◌, if◌then◌else◌, ◌⊎◌, inl, inr, true, false,
}
use rosette.Proto.Codec.{Codec}

abbrev pub link_version_v1 : ℕ
link_version_v1 = 1

pub record Endpoint : Type 0 where
  pub relay_addr : String
  pub relay_fingerprint : ℕ
  pub queue_id : ℕ
  pub send_key : ℕ

pub record ContactLink : Type 0 where
  pub version : ℕ
  pub key_package : List ℕ
  pub endpoints : List Endpoint

pub data LinkError : Type 0 where
  unsupported_version : ℕ → LinkError
  no_endpoints empty_key_package : LinkError
  malformed : String → LinkError

is_empty : {A : Type 0} → List A → Bool
is_empty [] = true
is_empty (x ∷ xs) = false

-- `Ok(())` is the empty right side.
unfoldable pub validate : ContactLink → LinkError ⊎ Unit {0}
unfolding is_empty
validate link =
    if link.version == link_version_v1
    then (if is_empty link.endpoints
        then inl no_endpoints
        else if is_empty link.key_package
        then inl empty_key_package
        else inr tt)
    else inl (unsupported_version link.version)

-- `link.validate()?; Ok(link)`
validated : ContactLink → LinkError ⊎ ContactLink
validated link = elim (validate link) [ inl e ↦ inl e | inr _ ↦ inr link ]

unfoldable pub new : List ℕ → List Endpoint → LinkError ⊎ ContactLink
unfolding validated
new key_package endpoints =
    validated
      (record { version = link_version_v1; key_package = key_package; endpoints = endpoints })

-- `&self.endpoints[0]`; `none` is the panic of an index out of range.
first : List Endpoint → Option Endpoint
first [] = none
first (e ∷ es) = some e

unfoldable pub primary_endpoint : ContactLink → Option Endpoint
unfolding first
primary_endpoint link = first link.endpoints

module _ (codec : Codec ContactLink) where
  unfoldable pub to_bytes : ContactLink → List ℕ
  to_bytes link = codec.encode link

  unfoldable pub from_bytes : List ℕ → LinkError ⊎ ContactLink
  unfolding validated
  from_bytes bytes = elim (codec.decode bytes) [
    | inl e ↦ inl (malformed e)
    | inr link ↦ validated link
  ]
