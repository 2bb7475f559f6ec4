-- ===== src/Directory/Backup/Equal.antt =====
-- `ct_eq` of directory/src/store.rs on equal byte strings, and the check of a proof that is the row's.
use Prim.Native.Nat.{
  ℕ, zero, suc, ◌≤◌, ◌/◌, ◌%◌, bit_xor, bit_or, bit_xor-bitwise, bit_or-bitwise, max, differ,
  digits,
}
use rosette.Prelude.{
  List, [], ◌∷◌, Bool, true, false, ==_refl, length, ◌≡◌, refl, sym, ap, ◌∙◌, arith, none, some,
  if◌then◌else◌, Bool-cases, inl, inr,
}
use rosette.Prelude.Map.{Map, lookup, insert, lookup-insert}
use rosette.Directory.Backup.{
  BackupUpload, Backup, Attempt, match, ct_eq, fold_differences, verify_row, verify_backup_auth,
  upsert_backup, expected, is_locked,
}

differ_self : (d : ℕ) → differ d d ≡ 0
differ_self zero = refl
differ_self (suc d) = differ_self d

digits_self : (n a : ℕ) → a ≤ n → digits (λ b. b) differ n a a ≡ 0
digits_self zero a h = omega arith
digits_self (suc n) zero h = refl
digits_self (suc n) (suc a) h =
    let half = digits_self n (suc a / 2) (omega arith) in
    omega (arith, half, differ_self (suc a % 2))

bit_xor_self : (a : ℕ) → bit_xor a a ≡ 0
bit_xor_self a = (λ i. bit_xor-bitwise a a i) ∙ digits_self a a (omega arith)

fold_differences_self : (bytes : List ℕ) → fold_differences 0 bytes bytes ≡ 0
unfolding fold_differences
fold_differences_self [] = refl
fold_differences_self (b ∷ bytes) =
    ap (λ d. fold_differences (bit_or 0 d) bytes bytes) (bit_xor_self b)
    ∙ fold_differences_self bytes

pub ct_eq_self : (bytes : List ℕ) → ct_eq bytes bytes ≡ true
unfolding ct_eq
ct_eq_self bytes = rw (==_refl (length bytes), fold_differences_self bytes) refl

differ-eq-zero : (d e : ℕ) → differ d e ≡ 0 → d ≡ e
differ-eq-zero zero e h = sym h
differ-eq-zero (suc d) zero h = h
differ-eq-zero (suc d) (suc e) h = ap suc (differ-eq-zero d e h)

digits-eq-zero : (n a b : ℕ) → a ≤ n → digits (λ b. b) differ n a b ≡ 0 → a ≡ b
digits-eq-zero zero a b le h = omega arith
digits-eq-zero (suc n) zero b le h = sym h
digits-eq-zero (suc n) (suc a) b le h =
    let half = digits-eq-zero n (suc a / 2) (b / 2) (omega arith) (omega arith) in
    let last = differ-eq-zero (suc a % 2) (b % 2) (omega arith) in omega (arith, half, last)

bit_xor-eq-zero : (a b : ℕ) → bit_xor a b ≡ 0 → a ≡ b
bit_xor-eq-zero a b h = digits-eq-zero a a b (omega arith) (sym (λ i. bit_xor-bitwise a b i) ∙ h)

max-digits-eq-zero : (n a b : ℕ) → a ≤ n → digits (λ b. b) max n a b ≡ 0 → (a ≡ 0) × (b ≡ 0)
max-digits-eq-zero zero a b le h = (omega arith, h)
max-digits-eq-zero (suc n) zero b le h = (refl, h)
max-digits-eq-zero (suc n) (suc a) b le h =
    let (half, other) = max-digits-eq-zero n (suc a / 2) (b / 2) (omega arith) (omega arith) in
    absurd (ground (arith, half, other))

bit_or-eq-zero : (a b : ℕ) → bit_or a b ≡ 0 → (a ≡ 0) × (b ≡ 0)
bit_or-eq-zero a b h = max-digits-eq-zero a a b (omega arith) (sym (λ i. bit_or-bitwise a b i) ∙ h)

fold_differences-eq-zero :
    (acc : ℕ) (xs ys : List ℕ)
    → length xs ≡ length ys
    → fold_differences acc xs ys ≡ 0
    → (acc ≡ 0) × (xs ≡ ys)
unfolding fold_differences
fold_differences-eq-zero acc [] [] l h = (h, refl)
fold_differences-eq-zero acc [] (y ∷ ys) l h = absurd (omega arith)
fold_differences-eq-zero acc (x ∷ xs) [] l h = absurd (omega arith)
fold_differences-eq-zero acc (x ∷ xs) (y ∷ ys) l h =
    let (both, rest) =
      fold_differences-eq-zero (bit_or acc (bit_xor x y)) xs ys (omega (arith, l)) h in
    let (old, differs) = bit_or-eq-zero acc (bit_xor x y) both in
    (old, ap (◌∷ xs) (bit_xor-eq-zero x y differs) ∙ ap (y ∷◌) rest)

pub ct_eq→eq : (xs ys : List ℕ) → ct_eq xs ys ≡ true → xs ≡ ys
unfolding ct_eq
ct_eq→eq xs ys h =
    let sizes : length xs ≡ length ys = ground arith in
    let folded : fold_differences 0 xs ys ≡ 0 = ground arith in
    (fold_differences-eq-zero 0 xs ys sizes folded).1

abbrev pub proof_of : Bool → BackupUpload → List ℕ
proof_of is_pin b = if is_pin then b.auth_pin_hash else b.auth_phrase_hash

verify_row-proved :
    (a : Attempt) (row : Backup)
    → is_locked a.now row.locked_until ≡ false
    → a.auth ≡ expected a row
    → (verify_row a row).1 ≡ match row.bundle
unfolding verify_row
verify_row-proved a row h k =
    let proved : ct_eq a.auth (expected a row) ≡ true =
      ap (λ auth. ct_eq auth (expected a row)) k ∙ ct_eq_self (expected a row) in
    elim (Bool-cases a.is_pin) [ inl e ↦ rw (proved, h, e) refl | inr e ↦ rw (proved, e) refl ]

verify_backup_auth-found :
    (user_id : ℕ) (a : Attempt) (row : Backup) (backups : Map Backup)
    → lookup user_id backups ≡ some row
    → (verify_backup_auth user_id a backups).1 ≡ some (verify_row a row).1
unfolding verify_backup_auth
verify_backup_auth-found user_id a row backups h = rw (h, verify_backup_auth) refl

-- A fresh upload is not locked, and gives its bundle for the proof that it holds.
pub verify_backup_auth-uploaded :
    (now user_id : ℕ) (a : Attempt) (b : BackupUpload) (backups : Map Backup)
    → a.auth ≡ proof_of a.is_pin b
    → (verify_backup_auth user_id a (upsert_backup now user_id b backups)).1 ≡ some (match b)
unfolding upsert_backup is_locked
verify_backup_auth-uploaded now user_id a b backups h =
    let row : Backup = record {
      bundle = b;
      pin_attempts = 0;
      locked_until = none;
      updated_at = now;
    } in
    let found : lookup user_id (insert user_id row backups) ≡ some row =
      lookup-insert user_id user_id row backups
      ∙ ap (λ t. if t then some row else lookup user_id backups) (==_refl user_id) in
    verify_backup_auth-found user_id a row (insert user_id row backups) found
    ∙ ap some (verify_row-proved a row refl h)
