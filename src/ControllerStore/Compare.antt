-- ===== src/ControllerStore/Compare.antt =====
-- The constant-time loops of firmware/controller_store.c decide what they are meant to.
use picobridge.Prelude.{
  ℕ, ◌≡◌, ◌↔◌, refl, arith, true, List, [], ◌∷◌, length, ==_iff, bit_or, bit_xor,
}
use picobridge.Prelude.Masks.{bit_or-zero_iff, bit_xor-zero_iff}
use picobridge.ControllerStore.Store.{any_bit, key_is_zero, any_difference, ct_equal}
use picobridge.ControllerStore.Valid.{IsZeroKey}

any_bit-zero : (v : ℕ) (key : List ℕ) → any_bit v key ≡ 0 → (v ≡ 0) × IsZeroKey key
unfolding any_bit
any_bit-zero v [] h = (h, tt)
any_bit-zero v (b ∷ key) h =
    let rest = any_bit-zero (bit_or v b) key h in
    let both = (bit_or-zero_iff v b).0 rest.0 in (both.0, (both.1, rest.1))

any_bit_of_zeros : (key : List ℕ) → IsZeroKey key → any_bit 0 key ≡ 0
unfolding any_bit
any_bit_of_zeros [] h = refl
any_bit_of_zeros (b ∷ key) h = rw h.0 (any_bit_of_zeros key h.1)

pub key_is_zero_iff : (key : List ℕ) → (key_is_zero key ≡ true) ↔ IsZeroKey key
unfolding key_is_zero
key_is_zero_iff key =
    (λ h. (any_bit-zero 0 key ((==_iff _ _).0 h)).1, λ h. (==_iff _ _).1 (any_bit_of_zeros key h))

any_difference-zero :
    (d : ℕ) (left right : List ℕ)
    → length left ≡ length right
    → any_difference d left right ≡ 0
    → (d ≡ 0) × (left ≡ right)
unfolding any_difference
any_difference-zero d [] [] e h = (h, refl)
any_difference-zero d [] (r ∷ right) e h = absurd (omega arith)
any_difference-zero d (l ∷ left) [] e h = absurd (omega arith)
any_difference-zero d (l ∷ left) (r ∷ right) e h =
    let rest = any_difference-zero (bit_or d (bit_xor l r)) left right (omega arith) h in
    let both = (bit_or-zero_iff d (bit_xor l r)).0 rest.0 in
    (both.0, rw ((bit_xor-zero_iff l r).0 both.1, rest.1) refl)

any_difference_same : (key : List ℕ) → any_difference 0 key key ≡ 0
unfolding any_difference
any_difference_same [] = refl
any_difference_same (b ∷ key) = rw ((bit_xor-zero_iff b b).1 refl) (any_difference_same key)

pub ct_equal_iff :
    (left right : List ℕ)
    → length left ≡ length right
    → (ct_equal left right ≡ true) ↔ (left ≡ right)
unfolding ct_equal
ct_equal_iff left right e = (
  λ h. (any_difference-zero 0 left right e ((==_iff _ _).0 h)).1,
  λ h. (==_iff _ _).1 (rw h (any_difference_same right)),
)
