-- ===== src/ControllerStore/Flash/Filled.antt =====
-- What `controller_store_encode` of firmware/controller_store.c puts into a sector is bytes, as many
-- as the sector has.
use picobridge.Prelude.{
  ℕ, zero, suc, ◌-◌, ◌≤◌, ◌<◌, ◌≡◌, inl, inr, arith, false, some, List, [], ◌∷◌, ◌++◌, length,
  replicate, All, All-append, length-replicate, ltb, ◌/◌, Bool-cases,
}
use mathlib.Core.Path.{subst}
use picobridge.ControllerStore.Types.{Slot, Store}
use picobridge.ControllerStore.Memory.{le_bytes, slot_bytes, covered_bytes, record_bytes}
use picobridge.ControllerStore.Store.{encode, sealed}
use picobridge.ControllerStore.Valid.{IsGoodSlot, IsTrusted}
use picobridge.ControllerStore.Boot.{length-record_bytes, sealed-IsRecord}

pub le_bytes-bytes : (n x : ℕ) → All (λ b. b < 256) (le_bytes n x)
unfolding le_bytes
le_bytes-bytes zero x = tt
le_bytes-bytes (suc n) x = (omega arith, le_bytes-bytes n (x / 256))

slot_bytes-bytes :
    (slots : List Slot) → All IsGoodSlot slots → All (λ b. b < 256) (slot_bytes slots)
slot_bytes-bytes [] g = tt
slot_bytes-bytes (s ∷ slots) g = (
  omega (arith, g.0.known),
  All-append _ s.public_key (slot_bytes slots) g.0.bytes (slot_bytes-bytes slots g.1),
)

record_bytes-bytes : (s : Store) → IsTrusted s → All (λ b. b < 256) (record_bytes (sealed s))
unfolding record_bytes covered_bytes sealed replicate
record_bytes-bytes s t =
    All-append _ _ (le_bytes 4 _)
      (All-append _ _ (le_bytes 4 _)
        (All-append _ _ (replicate 3 255)
          (All-append _ _ (slot_bytes s.slots)
            (All-append _ _ (le_bytes 4 _)
              (All-append _ _ (le_bytes 2 _)
                (All-append _ (le_bytes 4 _) (le_bytes 2 _) (le_bytes-bytes 4 _)
                  (le_bytes-bytes 2 _))
                (le_bytes-bytes 2 _))
              (le_bytes-bytes 4 _))
            (slot_bytes-bytes s.slots t.good))
          (omega arith, (omega arith, (omega arith, tt))))
        (le_bytes-bytes 4 _))
      (le_bytes-bytes 4 _)

pub All-replicate : (n : ℕ) → All (λ b. b < 256) (replicate n 255)
unfolding replicate
All-replicate zero = tt
All-replicate (suc n) = (omega arith, All-replicate n)

-- A sector that `encode` has filled.
pub record IsFilled (s : Store) (n : ℕ) (sector : List ℕ) : Type 0 where
  pub fits : length sector ≡ n
  pub bytes : All (λ b. b < 256) sector

pub encode-IsFilled :
    (s : Store) (n : ℕ) (sector : List ℕ)
    → IsTrusted s
    → encode s n ≡ some sector
    → IsFilled s n sector
unfolding encode
encode-IsFilled s n sector t e = elim (Bool-cases (ltb n 188)) [
  | inl short ↦ absurd (ground arith)
  | inr room ↦
      let same : record_bytes (sealed s) ++ replicate (n - 188) 255 ≡ sector = ground arith in
      subst (IsFilled s n) same (record {
        fits = omega (
          arith,
          length-record_bytes (sealed s) (replicate (n - 188) 255) (sealed-IsRecord s t),
          length-replicate {A = ℕ} (n - 188) 255,
          not_lt n 188 room,
        );
        bytes =
            All-append _ (record_bytes (sealed s)) (replicate (n - 188) 255)
              (record_bytes-bytes s t) (All-replicate (n - 188));
      })
]
  where
    not_lt : (a b : ℕ) → ltb a b ≡ false → b ≤ a
    not_lt a b h = ground arith
