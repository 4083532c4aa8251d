-- ===== src/ControllerStore/Flash/Program.antt =====
-- What programming does to an erased sector, for a board that works as its manual says.
use picobridge.Prelude.{
  ℕ, zero, suc, ◌+◌, ◌≤◌, ◌<◌, ◌≡◌, refl, ap, arith, List, [], ◌∷◌, length, take, drop, replicate,
  All, bit_and,
}
use picobridge.ControllerStore.Flash.{blank}
use picobridge.Prelude.Bits.{byte_law, every}

-- Programming clears bits and sets none.
unfoldable pub and_at : ℕ → List ℕ → List ℕ → List ℕ
and_at off page [] = []
and_at zero [] (s ∷ bytes) = s ∷ bytes
and_at zero (p ∷ page) (s ∷ bytes) = bit_and s p ∷ and_at zero page bytes
and_at (suc off) page (s ∷ bytes) = s ∷ and_at off page bytes

and_erased : (b : ℕ) → b < 256 → bit_and 255 b ≡ b
unfolding every
and_erased = byte_law (λ b. bit_and 255 b) (λ b. b) refl

and_same : (b : ℕ) → b < 256 → bit_and b b ≡ b
unfolding every
and_same = byte_law (λ b. bit_and b b) (λ b. b) refl

-- An image of a sector of which the first bytes are written and the rest is erased.
unfoldable pub written : ℕ → List ℕ → List ℕ
written n [] = []
written zero (b ∷ image) = 255 ∷ written zero image
written (suc n) (b ∷ image) = b ∷ written n image

pub written_nothing : (image : List ℕ) → replicate (length image) 255 ≡ written 0 image
unfolding written replicate
written_nothing [] = refl
written_nothing (b ∷ image) = ap (λ l. 255 ∷ l) (written_nothing image)

pub written_all : (n : ℕ) (image : List ℕ) → length image ≤ n → written n image ≡ image
unfolding written
written_all n [] h = refl
written_all zero (b ∷ image) h = absurd (omega arith)
written_all (suc n) (b ∷ image) h = ap (λ l. b ∷ l) (written_all n image (omega arith))

-- Programming the next page.
pub and_at-written :
    (p size q : ℕ) (image : List ℕ)
    → q ≡ p + size
    → All (λ b. b < 256) image
    → and_at p (take size (drop p image)) (written p image) ≡ written q image
unfolding and_at written
and_at-written p size q [] e h = refl
and_at-written zero zero zero (b ∷ image) e h = refl
and_at-written zero zero (suc q) (b ∷ image) e h = absurd (omega arith)
and_at-written zero (suc size) zero (b ∷ image) e h = absurd (omega arith)
and_at-written zero (suc size) (suc q) (b ∷ image) e h =
    rw (and_erased b h.0, and_at-written zero size q image (omega arith) h.1) refl
and_at-written (suc p) size zero (b ∷ image) e h = absurd (omega arith)
and_at-written (suc p) size (suc q) (b ∷ image) e h =
    ap (λ l. b ∷ l) (and_at-written p size q image (omega arith) h.1)

pub take-blank :
    (n offset count : ℕ) (bytes : List ℕ)
    → blank offset count (take n bytes) ≡ take n (blank offset count bytes)
unfolding blank
take-blank zero offset count [] = refl
take-blank zero offset count (b ∷ bytes) = refl
take-blank (suc n) offset count [] = refl
take-blank (suc n) zero zero (b ∷ bytes) = refl
take-blank (suc n) zero (suc count) (b ∷ bytes) = ap (λ l. 255 ∷ l) (take-blank n zero count bytes)
take-blank (suc n) (suc offset) count (b ∷ bytes) =
    ap (λ l. b ∷ l) (take-blank n offset count bytes)

pub drop-blank :
    (n offset count : ℕ) (bytes : List ℕ)
    → offset + count ≤ n
    → drop n (blank offset count bytes) ≡ drop n bytes
unfolding blank
drop-blank n offset count [] h = refl
drop-blank n zero zero (b ∷ bytes) h = refl
drop-blank zero zero (suc count) (b ∷ bytes) h = absurd (omega arith)
drop-blank zero (suc offset) count (b ∷ bytes) h = absurd (omega arith)
drop-blank (suc n) zero (suc count) (b ∷ bytes) h = drop-blank n zero count bytes (omega arith)
drop-blank (suc n) (suc offset) count (b ∷ bytes) h = drop-blank n offset count bytes (omega arith)

pub length-blank :
    (offset count : ℕ) (bytes : List ℕ) → length (blank offset count bytes) ≡ length bytes
unfolding blank
length-blank offset count [] = refl
length-blank zero zero (b ∷ bytes) = refl
length-blank zero (suc count) (b ∷ bytes) = ap suc (length-blank zero count bytes)
length-blank (suc offset) count (b ∷ bytes) = ap suc (length-blank offset count bytes)

pub length-written : (n : ℕ) (image : List ℕ) → length (written n image) ≡ length image
unfolding written
length-written n [] = refl
length-written zero (b ∷ image) = ap suc (length-written zero image)
length-written (suc n) (b ∷ image) = ap suc (length-written n image)

pub All-blank :
    (offset count : ℕ) (bytes : List ℕ)
    → All (λ b. b < 256) bytes
    → All (λ b. b < 256) (blank offset count bytes)
unfolding blank
All-blank offset count [] h = tt
All-blank zero zero (b ∷ bytes) h = h
All-blank zero (suc count) (b ∷ bytes) h = (omega arith, All-blank zero count bytes h.1)
All-blank (suc offset) count (b ∷ bytes) h = (h.0, All-blank offset count bytes h.1)

-- However much of it is written, an image with blank bytes has them blank.
pub written-blank :
    (p offset count : ℕ) (bytes : List ℕ)
    → offset + count ≤ length bytes
    → take count (drop offset (written p (blank offset count bytes))) ≡ replicate count 255
unfolding written blank replicate
written-blank p zero zero bytes h = refl
written-blank p zero (suc count) [] h = absurd (omega arith)
written-blank zero zero (suc count) (b ∷ bytes) h =
    ap (λ l. 255 ∷ l) (written-blank zero zero count bytes (omega arith))
written-blank (suc p) zero (suc count) (b ∷ bytes) h =
    ap (λ l. 255 ∷ l) (written-blank p zero count bytes (omega arith))
written-blank p (suc offset) zero [] h = absurd (omega arith)
written-blank p (suc offset) (suc count) [] h = absurd (omega arith)
written-blank zero (suc offset) count (b ∷ bytes) h =
    written-blank zero offset count bytes (omega arith)
written-blank (suc p) (suc offset) count (b ∷ bytes) h =
    written-blank p offset count bytes (omega arith)

same_page :
    (n : ℕ) (bytes : List ℕ) → All (λ b. b < 256) bytes → and_at 0 (take n bytes) bytes ≡ bytes
unfolding and_at
same_page n [] h = refl
same_page zero (b ∷ bytes) h = refl
same_page (suc n) (b ∷ bytes) h = rw (and_same b h.0) (ap (λ l. b ∷ l) (same_page n bytes h.1))

-- Programming the whole first page again fills in the blank bytes.
pub and_at-blank :
    (n offset count : ℕ) (bytes : List ℕ)
    → offset + count ≤ n
    → All (λ b. b < 256) bytes
    → and_at 0 (take n bytes) (blank offset count bytes) ≡ bytes
unfolding and_at blank
and_at-blank n offset count [] le h = refl
and_at-blank zero zero zero (b ∷ bytes) le h = refl
and_at-blank zero zero (suc count) (b ∷ bytes) le h = absurd (omega arith)
and_at-blank zero (suc offset) count (b ∷ bytes) le h = absurd (omega arith)
and_at-blank (suc n) zero zero (b ∷ bytes) le h =
    rw (and_same b h.0) (ap (λ l. b ∷ l) (same_page n bytes h.1))
and_at-blank (suc n) zero (suc count) (b ∷ bytes) le h =
    rw (and_erased b h.0) (ap (λ l. b ∷ l) (and_at-blank n zero count bytes (omega arith) h.1))
and_at-blank (suc n) (suc offset) count (b ∷ bytes) le h =
    rw (and_same b h.0) (ap (λ l. b ∷ l) (and_at-blank n offset count bytes (omega arith) h.1))
