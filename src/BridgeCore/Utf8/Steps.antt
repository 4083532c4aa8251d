-- ===== src/BridgeCore/Utf8/Steps.antt =====
-- The decoder's bit operations as arithmetic on bytes.
use picobridge.Prelude.{
  ℕ, suc, ◌+◌, ◌*◌, ◌/◌, ◌%◌, ◌^◌, ◌<◌, ◌≡◌, refl, arith, List, ◌∷◌, ◌==◌, if◌then◌else◌, bit_and,
  bit_or, u32, ◌<<<◌,
}
use picobridge.Prelude.Bits.{every, byte_law, bit_or_sixty_four}
use picobridge.BridgeCore.Types.{ok, err_utf8}
use picobridge.BridgeCore.Utf8.{decoded, continue_utf8}

pub low_three : (b : ℕ) → b < 256 → bit_and b 0x07 ≡ b % 8
unfolding every
low_three = byte_law (λ b. bit_and b 0x07) (λ b. b % 8) refl

pub low_four : (b : ℕ) → b < 256 → bit_and b 0x0f ≡ b % 16
unfolding every
low_four = byte_law (λ b. bit_and b 0x0f) (λ b. b % 16) refl

pub low_five : (b : ℕ) → b < 256 → bit_and b 0x1f ≡ b % 32
unfolding every
low_five = byte_law (λ b. bit_and b 0x1f) (λ b. b % 32) refl

low_six : (b : ℕ) → b < 256 → bit_and b 0x3f ≡ b % 64
unfolding every
low_six = byte_law (λ b. bit_and b 0x3f) (λ b. b % 64) refl

top_two : (b : ℕ) → b < 256 → bit_and b 0xc0 ≡ b / 64 * 64
unfolding every
top_two = byte_law (λ b. bit_and b 0xc0) (λ b. b / 64 * 64) refl

shift_in :
    (cp b : ℕ) → b < 256 → cp < 2 ^ 20 → u32 (bit_or (cp <<< 6) (bit_and b 0x3f)) ≡ cp * 64 + b % 64
shift_in cp b hb hc = ground (arith, low_six b, bit_or_sixty_four cp (b % 64))

-- One round of the loop over the continuation bytes.
pub continue_utf8-suc :
    (left cp b : ℕ) (rest : List ℕ)
    → b < 256
    → cp < 2 ^ 20
    → continue_utf8 (suc left) cp (b ∷ rest) ≡ (
        if b / 64 == 2
        then continue_utf8 left (cp * 64 + b % 64) rest
        else decoded err_utf8 cp rest)
unfolding continue_utf8
continue_utf8-suc left cp b rest hb hc = rw (top_two b hb, shift_in cp b hb hc) (ground arith)

pub continue_utf8-zero : (cp : ℕ) (rest : List ℕ) → continue_utf8 0 cp rest ≡ decoded ok cp rest
unfolding continue_utf8
continue_utf8-zero cp rest = refl

-- The loop on bytes that all continue.
module _ (cp a b c : ℕ) (rest : List ℕ) (small : cp < 2 ^ 6) where
  pub continue_one :
      a < 256 → a / 64 ≡ 2 → continue_utf8 1 cp (a ∷ rest) ≡ decoded ok (cp * 64 + a % 64) rest
  continue_one ha pa =
      rw (continue_utf8-suc 0 cp a rest ha (omega arith), pa, continue_utf8-zero) refl

  pub continue_two :
      a < 256
      → b < 256
      → a / 64 ≡ 2
      → b / 64 ≡ 2
      → continue_utf8 2 cp (a ∷ b ∷ rest) ≡ decoded ok ((cp * 64 + a % 64) * 64 + b % 64) rest
  continue_two ha hb pa pb =
      rw
        (
          continue_utf8-suc 1 cp a (b ∷ rest) ha (omega arith),
          pa,
          continue_utf8-suc 0 (cp * 64 + a % 64) b rest hb (omega arith),
          pb,
          continue_utf8-zero,
        )
        refl

  pub continue_three :
      a < 256
      → b < 256
      → c < 256
      → a / 64 ≡ 2
      → b / 64 ≡ 2
      → c / 64 ≡ 2
      → continue_utf8 3 cp (a ∷ b ∷ c ∷ rest)
        ≡ decoded ok (((cp * 64 + a % 64) * 64 + b % 64) * 64 + c % 64) rest
  continue_three ha hb hc pa pb pc =
      rw
        (
          continue_utf8-suc 2 cp a (b ∷ c ∷ rest) ha (omega arith),
          pa,
          continue_utf8-suc 1 (cp * 64 + a % 64) b (c ∷ rest) hb (omega arith),
          pb,
          continue_utf8-suc 0 ((cp * 64 + a % 64) * 64 + b % 64) c rest hc (omega arith),
          pc,
          continue_utf8-zero,
        )
        refl

-- A loop that ends well has read one continuation byte in each round.
pub continue_utf8-ok :
    (left cp a : ℕ) (rest : List ℕ)
    → a < 256
    → cp < 2 ^ 20
    → (continue_utf8 (suc left) cp (a ∷ rest)).status ≡ ok
    → (a / 64 ≡ 2) × ((continue_utf8 left (cp * 64 + a % 64) rest).status ≡ ok)
continue_utf8-ok left cp a rest ha hc h = ground (arith, continue_utf8-suc left cp a rest ha hc)
