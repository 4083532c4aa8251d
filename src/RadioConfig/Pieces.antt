-- ===== src/RadioConfig/Pieces.antt =====
-- Pieces of a radio record: lemmas on the loops of firmware/radio/radio_config.c and on parts of a
-- sector.
use picobridge.Prelude.{
  ℕ, zero, suc, ◌+◌, ◌≡◌, refl, ap, arith, true, List, [], ◌∷◌, ◌++◌, length, take, drop, replicate,
}
use picobridge.ControllerStore.Store.{crc_loop}
use picobridge.RadioConfig.{all_printable, all_erased}

pub crc_loop-append :
    (xs ys : List ℕ) (crc : ℕ) → crc_loop (crc_loop crc xs) ys ≡ crc_loop crc (xs ++ ys)
unfolding crc_loop
crc_loop-append [] ys crc = refl
crc_loop-append (x ∷ xs) ys crc = crc_loop-append xs ys _

pub all_printable-append :
    (xs ys : List ℕ)
    → all_printable xs ≡ true
    → all_printable ys ≡ true
    → all_printable (xs ++ ys) ≡ true
unfolding all_printable
all_printable-append [] ys hx hy = hy
all_printable-append (x ∷ xs) ys hx hy = ground (arith, all_printable-append xs ys)

pub all_erased-replicate : (n : ℕ) → all_erased (replicate n 255) ≡ true
unfolding all_erased replicate
all_erased-replicate zero = refl
all_erased-replicate (suc n) = all_erased-replicate n

module _ {ℓ} {A : Type ℓ} where
  pub take_past :
      (m k : ℕ) (xs ys : List A) → m ≡ length xs + k → take m (xs ++ ys) ≡ xs ++ take k ys
  take_past m k [] ys e = ap (λ n. take n ys) (omega arith)
  take_past zero k (x ∷ xs) ys e = absurd (omega arith)
  take_past (suc m) k (x ∷ xs) ys e = ap (λ l. x ∷ l) (take_past m k xs ys (omega arith))

  pub drop_more : (q m k : ℕ) (xs : List A) → q ≡ m + k → drop q xs ≡ drop k (drop m xs)
  drop_more q zero k xs e = ap (λ n. drop n xs) (omega arith)
  drop_more zero (suc m) k xs e = absurd (omega arith)
  drop_more (suc q) (suc m) zero [] e = refl
  drop_more (suc q) (suc m) (suc k) [] e = refl
  drop_more (suc q) (suc m) k (x ∷ xs) e = drop_more q m k xs (omega arith)
