-- ===== src/ControllerStore/Boot.antt =====
-- `record_valid` of firmware/controller_store.c accepts the records of trusted stores only, and
-- those that `encode` writes.
use picobridge.Prelude.{
  ◌+◌, ℕ, zero, suc, ◌*◌, ◌-◌, ◌≤◌, ◌<◌, ◌^◌, ◌≡◌, refl, ap, arith, true, false, Option, none, some,
  List, [], ◌∷◌, ◌++◌, length, take, drop, replicate, All, All-map, All-take, All-drop, length-take,
  length-drop, length-append, ltb, ==_iff,
}
use mathlib.Core.Path.{subst}
use picobridge.ControllerStore.Types.{Slot, Store, Record, slot_count}
use picobridge.ControllerStore.Memory.{
  le_bytes, le_value, slot_bytes, covered_bytes, record_bytes, read_slots, read_record,
}
use picobridge.ControllerStore.Memory.RoundTrip.{
  IsRecord, read_record-record_bytes, length-slot_bytes,
}
use picobridge.ControllerStore.Store.{
  crc32, check_slots, header_valid, recovery_valid, record_valid, encode, sealed,
}
use picobridge.ControllerStore.Valid.{IsGoodSlot, IsOrdinary, IsRecoveryFirst, IsTrusted}
use picobridge.ControllerStore.Check.{
  HasKey, count_recovery, check_slots-IsChecked, IsChecked-check_slots,
}

-- No recovery administrator is left when none is counted.
none_counted : (slots : List Slot) → count_recovery slots ≡ 0 → All IsOrdinary slots
none_counted [] h = tt
none_counted (s ∷ slots) h = (ground arith, none_counted slots (omega arith))

count_ordinary : (slots : List Slot) → All IsOrdinary slots → count_recovery slots ≡ 0
count_ordinary [] h = refl
count_ordinary (s ∷ slots) h = ground (arith, count_ordinary slots h.1, h.0)

recovery_valid-IsRecoveryFirst :
    (slots : List Slot)
    → recovery_valid slots (some (count_recovery slots)) ≡ true
    → IsRecoveryFirst slots
unfolding recovery_valid
recovery_valid-IsRecoveryFirst [] h = absurd (ground arith)
recovery_valid-IsRecoveryFirst (s ∷ slots) h = (ground arith, none_counted slots (ground arith))

IsRecoveryFirst-recovery_valid :
    (slots : List Slot)
    → IsRecoveryFirst slots
    → recovery_valid slots (some (count_recovery slots)) ≡ true
unfolding recovery_valid
IsRecoveryFirst-recovery_valid [] h = absurd h
IsRecoveryFirst-recovery_valid (s ∷ slots) h = ground (arith, h.0, count_ordinary slots h.1)

-- What memory of bytes gives.
le_value-take : (xs : List ℕ) → All (λ b. b < 256) xs → le_value (take 4 xs) < 2 ^ 32
unfolding le_value
le_value-take [] h = omega arith
le_value-take (a ∷ []) h = omega arith
le_value-take (a ∷ b ∷ []) h = omega arith
le_value-take (a ∷ b ∷ c ∷ []) h = omega arith
le_value-take (a ∷ b ∷ c ∷ d ∷ xs) h = omega arith

length-read_slots : (n : ℕ) (bytes : List ℕ) → length (read_slots n bytes) ≡ n
unfolding read_slots
length-read_slots zero bytes = refl
length-read_slots (suc n) bytes = ap suc (length-read_slots n (drop 33 bytes))

read_slots-HasKey :
    (n : ℕ) (bytes : List ℕ)
    → 33 * n ≤ length bytes
    → All (λ b. b < 256) bytes
    → All HasKey (read_slots n bytes)
unfolding read_slots
read_slots-HasKey zero bytes h b = tt
read_slots-HasKey (suc n) bytes h b = (
  record {
    size = length-take 32 (drop 1 bytes) (omega (arith, length-drop 1 bytes));
    bytes = All-take _ 32 (drop 1 bytes) (All-drop _ 1 bytes b);
  },
  read_slots-HasKey n (drop 33 bytes) (omega (arith, length-drop 33 bytes)) (All-drop _ 33 bytes b),
)

-- The tests that a record has passed when it is accepted.
pub passed :
    (bytes : List ℕ) (s : Store)
    → record_valid (some bytes) ≡ some s
    → (188 ≤ length bytes)
      × (header_valid (read_record bytes) (covered_bytes (read_record bytes)) ≡ true)
      × (recovery_valid (read_record bytes).slots (check_slots [] (read_record bytes).slots 0)
          ≡ true)
      × (record { generation = (read_record bytes).generation; slots = (read_record bytes).slots }
          ≡ s)
unfolding record_valid
passed bytes s h = (ground arith, ground arith, ground arith, ground arith)

some_counted :
    (slots : List Slot) (o : Option ℕ)
    → recovery_valid slots o ≡ true
    → (found : ℕ) × (o ≡ some found)
unfolding recovery_valid
some_counted slots none h = absurd (ground arith)
some_counted slots (some found) h = (found, refl)

slots-IsTrusted :
    (s : Store)
    → s.generation < 2 ^ 32
    → length s.slots ≡ slot_count
    → All HasKey s.slots
    → recovery_valid s.slots (check_slots [] s.slots 0) ≡ true
    → IsTrusted s
slots-IsTrusted s word count keys h =
    let counted = some_counted s.slots (check_slots [] s.slots 0) h in
    let checked = check_slots-IsChecked [] s.slots 0 counted.0 tt keys counted.1 in
    let total : counted.0 ≡ count_recovery s.slots = omega (arith, checked.counted) in
    record {
      word = word;
      count = count;
      good = checked.good;
      apart = checked.apart;
      recovery = recovery_valid-IsRecoveryFirst s.slots (rw (← total, ← counted.1) h);
    }

-- Whatever bytes the flash holds, a store that boots from them is in order: the recovery
-- administrator in the first slot and in no other, known roles, keys of all zeros in the free slots
-- only, and no key twice.
pub record_valid-IsTrusted :
    (bytes : List ℕ) (s : Store)
    → All (λ b. b < 256) bytes
    → record_valid (some bytes) ≡ some s
    → IsTrusted s
record_valid-IsTrusted bytes s b h =
    let p = passed bytes s h in
    subst IsTrusted p.3 (
      slots-IsTrusted
        (record { generation = (read_record bytes).generation; slots = (read_record bytes).slots })
        (word_of bytes b) (count_of bytes) (keys_of bytes p.0 b) p.2)
  where
    word_of : (bytes : List ℕ) → All (λ b. b < 256) bytes → (read_record bytes).generation < 2 ^ 32
    word_of bytes b = unfold read_record in le_value-take (drop 8 bytes) (All-drop _ 8 bytes b)

    count_of : (bytes : List ℕ) → length (read_record bytes).slots ≡ slot_count
    count_of bytes = unfold read_record in length-read_slots 5 (drop 12 bytes)

    keys_of :
        (bytes : List ℕ)
        → 188 ≤ length bytes
        → All (λ b. b < 256) bytes
        → All HasKey (read_record bytes).slots
    keys_of bytes long b =
        unfold read_record in
        read_slots-HasKey 5 (drop 12 bytes) (omega (arith, length-drop 12 bytes))
          (All-drop _ 12 bytes b)

pub keys_of_trusted : (s : Store) → IsTrusted s → All HasKey s.slots
keys_of_trusted s t =
    All-map IsGoodSlot HasKey (λ x g. record { size = g.size; bytes = g.bytes }) s.slots t.good

nothing_earlier : (slots : List Slot) → All {0, 0} (λ (s : Slot). Unit) slots
nothing_earlier [] = tt
nothing_earlier (s ∷ slots) = (tt, nothing_earlier slots)

IsTrusted-recovery_valid :
    (s : Store) → IsTrusted s → recovery_valid s.slots (check_slots [] s.slots 0) ≡ true
IsTrusted-recovery_valid s t =
    rw
      (IsChecked-check_slots [] s.slots 0 (count_recovery s.slots) tt (keys_of_trusted s t)
        (record {
          good = t.good;
          fresh = nothing_earlier s.slots;
          apart = t.apart;
          counted = omega arith;
        }))
      (IsRecoveryFirst-recovery_valid s.slots t.recovery)

pub sealed-IsRecord : (s : Store) → IsTrusted s → IsRecord (sealed s)
unfolding sealed crc32 replicate
sealed-IsRecord s t = record {
  magic_word = omega arith;
  schema_word = omega arith;
  reserved_word = omega arith;
  generation_word = t.word;
  slots_count = t.count;
  slots_keys = keys_of_trusted s t;
  padding_size = refl;
  crc32_word = omega arith;
  commit_word = omega arith;
}

sealed-header_valid : (s : Store) → header_valid (sealed s) (covered_bytes (sealed s)) ≡ true
unfolding header_valid sealed covered_bytes
sealed-header_valid s = (==_iff _ _).1 refl

pub length-record_bytes :
    (r : Record) (rest : List ℕ) → IsRecord r → length (record_bytes r ++ rest) ≡ 188 + length rest
unfolding record_bytes covered_bytes le_bytes
length-record_bytes r rest v = omega (
  arith,
  length-append (covered_bytes r ++ le_bytes 4 r.crc32 ++ le_bytes 4 r.commit) rest,
  length-append (covered_bytes r ++ le_bytes 4 r.crc32) (le_bytes 4 r.commit),
  length-append (covered_bytes r) (le_bytes 4 r.crc32),
  length-append (slot_bytes r.slots) r.padding,
  length-slot_bytes r.slots v.slots_keys,
  v.slots_count,
  v.padding_size,
)

record_valid-sealed :
    (s : Store) (rest : List ℕ)
    → IsTrusted s
    → record_valid (some (record_bytes (sealed s) ++ rest)) ≡ some s
unfolding record_valid
record_valid-sealed s rest t =
    let long = length-record_bytes (sealed s) rest (sealed-IsRecord s t) in
    let fits : ltb (length (record_bytes (sealed s) ++ rest)) 188 ≡ false = ground arith in
    rw (fits, read_record-record_bytes (sealed s) rest (sealed-IsRecord s t), sealed-header_valid s)
      (unfold sealed in rw (IsTrusted-recovery_valid s t) refl)

-- When `encode` writes a sector for a trusted store, the sector is accepted as a record of just
-- that store, whatever the length that it was given.
pub record_valid-encode :
    (s : Store) (out_len : ℕ) (bytes : List ℕ)
    → IsTrusted s
    → encode s out_len ≡ some bytes
    → record_valid (some bytes) ≡ some s
unfolding encode
record_valid-encode s out_len bytes t h =
    ground (arith, record_valid-sealed s (replicate (out_len - 188) 0xff) t)
