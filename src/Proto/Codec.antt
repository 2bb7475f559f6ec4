-- ===== src/Proto/Codec.antt =====
-- `encode` and `decode` of proto/src/lib.rs call bincode, which is not part of the repository. What
-- they do at one type is a parameter.
use Prim.Native.String.{String}
use rosette.Prelude.{ℕ, List, ◌⊎◌}

pub record Codec {ℓ} (T : Type ℓ) : Type ℓ where
  pub encode : T → List ℕ
  -- a value, or bincode's error text
  pub decode : List ℕ → String ⊎ T
