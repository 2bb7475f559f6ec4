-- ===== src/Prelude/Int.antt =====
-- Signed integers, and the 64-bit words that stand for the values of `i64`.
use Prim.Native.Nat.{ℕ, suc, ◌-◌, ◌%◌, ◌^◌, ◌<◌}
use mathlib.Core.Path.{◌≡◌, refl}
use mathlib.Core.Bool.{Bool, true, false}
use native.Mathlib.Omega.{arith}
use rosette.Prelude.Tests.{ltb, leb}

-- `negsuc n` is -(n + 1).
pub data ℤ : Type 0 where
  pos : ℕ → ℤ
  negsuc : ℕ → ℤ

abbrev pub leb_ℤ : ℤ → ℤ → Bool
leb_ℤ (pos a) (pos b) = leb a b
leb_ℤ (pos a) (negsuc b) = false
leb_ℤ (negsuc a) (pos b) = true
leb_ℤ (negsuc a) (negsuc b) = leb b a

abbrev pub ltb_ℤ : ℤ → ℤ → Bool
ltb_ℤ (pos a) (pos b) = ltb a b
ltb_ℤ (pos a) (negsuc b) = false
ltb_ℤ (negsuc a) (pos b) = true
ltb_ℤ (negsuc a) (negsuc b) = ltb b a

abbrev pub IsI64 : ℤ → Type 0
IsI64 (pos n) = n < 2 ^ 63
IsI64 (negsuc n) = n < 2 ^ 63

-- The two's complement word of an `i64`.
unfoldable pub word64 : ℤ → ℕ
word64 (pos n) = n % 2 ^ 64
word64 (negsuc n) = (2 ^ 64 - suc n) % 2 ^ 64

pub word64-lt : (x : ℤ) → word64 x < 2 ^ 64
unfolding word64
word64-lt (pos n) = omega arith
word64-lt (negsuc n) = omega arith

pub word64_injective : (x y : ℤ) → IsI64 x → IsI64 y → word64 x ≡ word64 y → x ≡ y
unfolding word64
word64_injective (pos a) (pos b) h k e = ground (arith, (let p : a ≡ b = omega arith in p))
word64_injective (pos a) (negsuc b) h k e = absurd (omega arith)
word64_injective (negsuc a) (pos b) h k e = absurd (omega arith)
word64_injective (negsuc a) (negsuc b) h k e = ground (arith, (let p : a ≡ b = omega arith in p))

pub not-leb_ℤ : (x y : ℤ) → leb_ℤ x y ≡ false → ltb_ℤ y x ≡ true
not-leb_ℤ (pos a) (pos b) h = ground arith
not-leb_ℤ (pos a) (negsuc b) h = refl
not-leb_ℤ (negsuc a) (pos b) h = cc
not-leb_ℤ (negsuc a) (negsuc b) h = ground arith

pub leb_ℤ_trans : (x y z : ℤ) → leb_ℤ x y ≡ true → leb_ℤ y z ≡ true → leb_ℤ x z ≡ true
leb_ℤ_trans (pos a) (pos b) (pos c) h k = ground arith
leb_ℤ_trans (pos a) (pos b) (negsuc c) h k = cc
leb_ℤ_trans (pos a) (negsuc b) z h k = cc
leb_ℤ_trans (negsuc a) (pos b) (pos c) h k = refl
leb_ℤ_trans (negsuc a) (pos b) (negsuc c) h k = cc
leb_ℤ_trans (negsuc a) (negsuc b) (pos c) h k = refl
leb_ℤ_trans (negsuc a) (negsuc b) (negsuc c) h k = ground arith
