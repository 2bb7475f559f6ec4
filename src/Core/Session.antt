-- ===== src/Core/Session.antt =====
-- The session snapshot of core/src/session.rs. OpenMLS is not part of the repository: a credential and
-- a signer are their bytes, and the storage map of OpenMLS is a map of byte strings. `none` is a
-- `SessionError`.
use rosette.Prelude.{ℕ, List, [], Option, none, some, inl, inr}
use rosette.Prelude.Text.{TextMap}
use rosette.Proto.Codec.{Codec}

pub record SessionSnapshot : Type 0 where
  pub credential_with_key : List ℕ
  pub signer : List ℕ
  pub group_id : Option (List ℕ)
  pub storage : TextMap (List ℕ)

abbrev pub without_group : SessionSnapshot → SessionSnapshot
without_group snap = record snap { group_id = none; storage = [] }

unfoldable pub strip_snapshot_to_identity : Codec SessionSnapshot → List ℕ → Option (List ℕ)
strip_snapshot_to_identity codec bytes = elim (codec.decode bytes) [
  | inl error ↦ none
  | inr snap ↦ some (codec.encode (without_group snap))
]
