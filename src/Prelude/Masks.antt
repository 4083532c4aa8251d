-- ===== src/Prelude/Masks.antt =====
-- When an OR or an exclusive OR of numbers is zero, the tests of constant-time comparisons, and the
-- lowest bit of a number.
use Prim.Native.Nat.{ℕ, zero, suc, ◌+◌, ◌*◌, ◌/◌, ◌%◌, ◌≤◌, bit_and, bit_or, bit_xor}
use Prim.Native.Nat.{digits, differ, min, bit_and-bitwise, bit_xor-bitwise}
use mathlib.Core.Path.{◌≡◌, refl}
use mathlib.Core.Logic.{◌↔◌}
use native.Mathlib.Nat.{le_refl}
use picobridge.Prelude.Bits.{bit_or-half, digits-fuel}
use native.Mathlib.Omega.{arith}

bit_or_zero : (n a b : ℕ) → a ≤ n → b ≤ n → bit_or a b ≡ 0 → (a ≡ 0) × (b ≡ 0)
bit_or_zero zero a b ha hb h = (omega arith, omega arith)
bit_or_zero (suc n) a b ha hb h = ground (arith, bit_or-half a b, bit_or_zero n (a / 2) (b / 2))

pub bit_or-zero_iff : (a b : ℕ) → (bit_or a b ≡ 0) ↔ ((a ≡ 0) × (b ≡ 0))
bit_or-zero_iff a b = (bit_or_zero (a + b) a b (omega arith) (omega arith), back)
  where
    back : (a ≡ 0) × (b ≡ 0) → bit_or a b ≡ 0
    back h = rw (h.0, h.1) refl

no_digits : (n a : ℕ) → digits (λ b. zero) min n a 0 ≡ 0
no_digits zero a = refl
no_digits (suc n) zero = refl
no_digits (suc n) (suc a) = omega (arith, no_digits n (suc a / 2))

-- The lowest binary digit of a number.
pub bit_and-one : (a : ℕ) → bit_and a 1 ≡ a % 2
bit_and-one zero = refl
bit_and-one (suc a) = simp bit_and-bitwise (omega (arith, no_digits a (suc a / 2)))

-- The lowest binary digit of `a ^ b`.
bit_xor-half : (a b : ℕ) → bit_xor a b ≡ bit_xor (a / 2) (b / 2) * 2 + differ (a % 2) (b % 2)
bit_xor-half zero b = simp bit_xor-bitwise (omega arith)
bit_xor-half (suc a) b =
    simp bit_xor-bitwise (
      omega (arith, digits-fuel differ a (suc a / 2) (suc a / 2) (b / 2) (omega arith) (le_refl _)))

differ_zero : (x y : ℕ) → differ x y ≡ 0 → x ≡ y
differ_zero zero y h = ground arith
differ_zero (suc x) zero h = h
differ_zero (suc x) (suc y) h = omega (arith, differ_zero x y h)

differ_same : (x : ℕ) → differ x x ≡ 0
differ_same zero = refl
differ_same (suc x) = differ_same x

bit_xor_zero : (n a b : ℕ) → a ≤ n → b ≤ n → bit_xor a b ≡ 0 → a ≡ b
bit_xor_zero zero a b ha hb h = omega arith
bit_xor_zero (suc n) a b ha hb h =
    ground (arith, bit_xor-half a b, bit_xor_zero n (a / 2) (b / 2), differ_zero (a % 2) (b % 2))

bit_xor_same : (n a : ℕ) → a ≤ n → bit_xor a a ≡ 0
bit_xor_same zero zero h = refl
bit_xor_same zero (suc a) h = absurd (omega arith)
bit_xor_same (suc n) zero h = refl
bit_xor_same (suc n) (suc a) h =
    ground
      (arith, bit_xor-half (suc a) (suc a), bit_xor_same n (suc a / 2), differ_same (suc a % 2))

pub bit_xor-zero_iff : (a b : ℕ) → (bit_xor a b ≡ 0) ↔ (a ≡ b)
bit_xor-zero_iff a b = (bit_xor_zero (a + b) a b (omega arith) (omega arith), back)
  where
    back : a ≡ b → bit_xor a b ≡ 0
    back h = rw h (bit_xor_same b b (le_refl b))
