-- ===== src/Proto/Limits.antt =====
-- proto/src/limits.rs
use rosette.Prelude.{ℕ, ◌*◌}

abbrev pub max_message_size : ℕ
max_message_size = 65536

abbrev pub max_queue_depth : ℕ
max_queue_depth = 1000

abbrev pub max_storage_bytes : ℕ
max_storage_bytes = 10 * 1024 * 1024 * 1024

abbrev pub rate_limit_per_queue_per_minute : ℕ
rate_limit_per_queue_per_minute = 60

abbrev pub queue_creation_pow_difficulty : ℕ
queue_creation_pow_difficulty = 16

abbrev pub max_outstanding_pow_challenges : ℕ
max_outstanding_pow_challenges = 10_000
