-- ===== src/Prelude/Bytes.antt =====
-- Byte strings: `to_le_bytes` and `to_be_bytes` of an unsigned number, and of a fixed-size array
-- that is represented by the number whose big-endian bytes it holds.
use Prim.Native.Nat.{ℕ, zero, suc, ◌+◌, ◌*◌, ◌/◌, ◌%◌, ◌^◌, ◌<◌}
use mathlib.Core.Path.{◌≡◌, refl, sym, ap, ◌∙◌}
use mathlib.Core.List.{List, [], ◌∷◌, ◌++◌, reverse, reverse-reverse, reverse-cons}
use native.Mathlib.Omega.{arith}
use native.Mathlib.Nat.{pow-suc}
use rosette.Prelude.Lists.{length, length-append}

unfoldable pub le_bytes : ℕ → ℕ → List ℕ
le_bytes zero x = []
le_bytes (suc n) x = (x % 256) ∷ le_bytes n (x / 256)

unfoldable pub be_bytes : ℕ → ℕ → List ℕ
unfolding le_bytes
be_bytes n x = reverse (le_bytes n x)

unfoldable pub le_value : List ℕ → ℕ
le_value [] = 0
le_value (b ∷ bs) = b + 256 * le_value bs

pub le_value-le_bytes : (n x : ℕ) → x < 256 ^ n → le_value (le_bytes n x) ≡ x
unfolding le_value le_bytes
le_value-le_bytes zero x h = omega arith
le_value-le_bytes (suc n) x h =
    let p : x / 256 < 256 ^ n = omega (arith, pow-suc 256 n) in
    omega (arith, le_value-le_bytes n (x / 256) p)

pub length-le_bytes : (n x : ℕ) → length (le_bytes n x) ≡ n
unfolding le_bytes
length-le_bytes zero x = refl
length-le_bytes (suc n) x = ap suc (length-le_bytes n (x / 256))

length-reverse_bytes : (bytes : List ℕ) → length (reverse bytes) ≡ length bytes
length-reverse_bytes [] = refl
length-reverse_bytes (b ∷ bs) =
    let last = ap length (reverse-cons b bs) ∙ length-append (reverse bs) (b ∷ []) in
    omega (arith, last, length-reverse_bytes bs)

pub length-be_bytes : (n x : ℕ) → length (be_bytes n x) ≡ n
unfolding be_bytes
length-be_bytes n x = length-reverse_bytes (le_bytes n x) ∙ length-le_bytes n x

-- Equal encodings of two numbers that fit come from equal numbers.
pub be_bytes_injective :
    (n x y : ℕ) → x < 256 ^ n → y < 256 ^ n → be_bytes n x ≡ be_bytes n y → x ≡ y
unfolding be_bytes
be_bytes_injective n x y h k e =
    sym (le_value-le_bytes n x h)
    ∙ ap le_value
        (sym (reverse-reverse (le_bytes n x)) ∙ ap reverse e ∙ reverse-reverse (le_bytes n y))
    ∙ le_value-le_bytes n y k

pub append_injective {ℓ} :
    {A : Type ℓ} (xs xs' ys ys' : List A)
    → length xs ≡ length xs'
    → xs ++ ys ≡ xs' ++ ys'
    → (xs ≡ xs') × (ys ≡ ys')
append_injective [] [] ys ys' h e = (refl, e)
append_injective [] (x' ∷ xs') ys ys' h e = absurd (omega arith)
append_injective (x ∷ xs) [] ys ys' h e = absurd (omega arith)
append_injective (x ∷ xs) (x' ∷ xs') ys ys' h e =
    let rest = append_injective xs xs' ys ys' (omega arith) (cc) in (cc, rest.1)
