-- ===== src/Prelude/Bits.antt =====
-- What `&` with a mask and `|` of disjoint fields are, as arithmetic.
-- A byte is checked value by value; a join of fields goes digit by digit.
use Prim.Native.Nat.{ℕ, zero, suc, ◌+◌, ◌*◌, ◌/◌, ◌%◌, ◌≤◌, ◌<◌, max, bit_or}
use Prim.Native.Nat.{digits, bit_or-bitwise}
use mathlib.Core.Path.{◌≡◌, refl}
use mathlib.Core.Bool.{Bool, true, ◌&&◌}
use native.Mathlib.Nat.{le_refl}
use picobridge.Prelude.Tests.{◌==◌, ==_iff}
use native.Mathlib.Omega.{arith}

-- `p` holds of every number below `n`.
unfoldable pub every : ℕ → (ℕ → Bool) → Bool
every zero p = true
every (suc n) p = p n && every n p

pub every-lt : (n : ℕ) (p : ℕ → Bool) (x : ℕ) → every n p ≡ true → x < n → p x ≡ true
unfolding every
every-lt zero p x h lt = absurd (omega arith)
every-lt (suc n) p x h lt = ground (arith, every-lt n p x)

-- Two functions that agree on every byte, by a table of their values.
pub byte_law : (f g : ℕ → ℕ) → every 256 (λ b. f b == g b) ≡ true → (b : ℕ) → b < 256 → f b ≡ g b
byte_law f g table b h = (==_iff _ _).0 (every-lt 256 (λ b. f b == g b) b table h)

-- Any fuel that covers the number gives the same digits.
pub digits-fuel :
    (f : ℕ → ℕ → ℕ) (j k a b : ℕ)
    → a ≤ j
    → a ≤ k
    → digits (λ y. y) f j a b ≡ digits (λ y. y) f k a b
digits-fuel f zero zero a b hj hk = refl
digits-fuel f zero (suc k) zero b hj hk = refl
digits-fuel f zero (suc k) (suc a) b hj hk = absurd (omega arith)
digits-fuel f (suc j) zero zero b hj hk = refl
digits-fuel f (suc j) zero (suc a) b hj hk = absurd (omega arith)
digits-fuel f (suc j) (suc k) zero b hj hk = refl
digits-fuel f (suc j) (suc k) (suc a) b hj hk =
    rw (digits-fuel f j k (suc a / 2) (b / 2) (omega arith) (omega arith))

-- The lowest binary digit of `a | b`.
pub bit_or-half : (a b : ℕ) → bit_or a b ≡ bit_or (a / 2) (b / 2) * 2 + max (a % 2) (b % 2)
bit_or-half zero b = simp bit_or-bitwise (omega arith)
bit_or-half (suc a) b =
    simp bit_or-bitwise
      (omega (arith, digits-fuel max a (suc a / 2) (suc a / 2) (b / 2) (omega arith) (le_refl _)))

bit_or-zero : (n a : ℕ) → a ≤ n → bit_or a 0 ≡ a
bit_or-zero n zero h = refl
bit_or-zero zero (suc a) h = absurd (omega arith)
bit_or-zero (suc n) (suc a) h =
    omega (arith, bit_or-half (suc a) 0, bit_or-zero n (suc a / 2) (omega arith))

bit_or_two : (q r : ℕ) → r < 2 → bit_or (q * 2) r ≡ q * 2 + r
bit_or_two q r h = ground (arith, bit_or-half (q * 2) r, bit_or-zero q q (le_refl q))

bit_or_four : (q r : ℕ) → r < 4 → bit_or (q * 4) r ≡ q * 4 + r
bit_or_four q r h = ground (arith, bit_or-half (q * 4) r, bit_or_two q (r / 2))

bit_or_eight : (q r : ℕ) → r < 8 → bit_or (q * 8) r ≡ q * 8 + r
bit_or_eight q r h = ground (arith, bit_or-half (q * 8) r, bit_or_four q (r / 2))

bit_or_sixteen : (q r : ℕ) → r < 16 → bit_or (q * 16) r ≡ q * 16 + r
bit_or_sixteen q r h = ground (arith, bit_or-half (q * 16) r, bit_or_eight q (r / 2))

bit_or_thirty_two : (q r : ℕ) → r < 32 → bit_or (q * 32) r ≡ q * 32 + r
bit_or_thirty_two q r h = ground (arith, bit_or-half (q * 32) r, bit_or_sixteen q (r / 2))

-- `(q << 6) | r` is a sum when `r` has six bits.
pub bit_or_sixty_four : (q r : ℕ) → r < 64 → bit_or (q * 64) r ≡ q * 64 + r
bit_or_sixty_four q r h = ground (arith, bit_or-half (q * 64) r, bit_or_thirty_two q (r / 2))
