-- ===== src/Proto/Error.antt =====
-- proto/src/error.rs
use rosette.Prelude.{◌≡◌, refl, ◌⊎◌, inl, inr}

pub data RejectionCode : Type 0 where
  queue_full message_too_large rate_limited unauthorized : RejectionCode
  invalid_proof_of_work invalid_attestation queue_not_found : RejectionCode
  storage_bound_exceeded epoch_conflict group_inbox_not_found : RejectionCode

-- `Result<A, RejectionCode>`
pub data Result {ℓ} (A : Type ℓ) : Type ℓ where
  ok : A → Result A
  err : RejectionCode → Result A

pub Result-cases {ℓ} :
    {A : Type ℓ} (r : Result A) → ((a : A) × (r ≡ ok a)) ⊎ ((code : RejectionCode) × (r ≡ err code))
Result-cases (ok a) = inl (a, refl)
Result-cases (err e) = inr (e, refl)
