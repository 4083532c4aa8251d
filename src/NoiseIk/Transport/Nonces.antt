-- ===== src/NoiseIk/Transport/Nonces.antt =====
-- Nonces of firmware/noise_ik.c: one counter, one nonce.
use picobridge.Prelude.{
  ℕ, zero, suc, ◌*◌, ◌/◌, ◌<◌, ◌^◌, ◌≡◌, refl, sym, ap, ◌∙◌, arith, length, drop, replicate,
}
use picobridge.ControllerStore.Memory.{le_bytes, le_value}
use picobridge.NoiseIk.Transport.{noise_nonce}

-- 256 to the power `n`.
unfoldable pub byte_power : ℕ → ℕ
byte_power zero = 1
byte_power (suc n) = 256 * byte_power n

pub le_value-le_bytes : (n x : ℕ) → x < byte_power n → le_value (le_bytes n x) ≡ x
unfolding le_value le_bytes byte_power
le_value-le_bytes zero x h = omega arith
le_value-le_bytes (suc n) x h = omega (arith, le_value-le_bytes n (x / 256) (omega arith))

pub length-le_bytes : (n x : ℕ) → length (le_bytes n x) ≡ n
unfolding le_bytes
length-le_bytes zero x = refl
length-le_bytes (suc n) x = ap suc (length-le_bytes n (x / 256))

-- Two counters of 64 bits have the same nonce only if they are the same.
pub noise_nonce-injective :
    (a b : ℕ) → a < 2 ^ 64 → b < 2 ^ 64 → noise_nonce a ≡ noise_nonce b → a ≡ b
unfolding noise_nonce byte_power replicate
noise_nonce-injective a b ha hb e =
    sym (le_value-le_bytes 8 a ha) ∙ ap (λ l. le_value (drop 4 l)) e ∙ le_value-le_bytes 8 b hb
