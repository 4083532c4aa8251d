-- ===== src/ControllerStore/Memory/RoundTrip.antt =====
-- Reading a record back from the bytes it was copied to: the `memcpy`s of
-- firmware/controller_store.c.
use picobridge.Prelude.{
  ℕ, zero, suc, ◌+◌, ◌*◌, ◌<◌, ◌^◌, ◌≡◌, refl, ap, ◌∙◌, arith, List, [], ◌∷◌, ◌++◌, length, take,
  drop, All, length-append, take-append,
}
use mathlib.Core.List.{append_assoc}
use picobridge.ControllerStore.Types.{Slot, Record, key_len}
use picobridge.ControllerStore.Memory.{
  le_bytes, le_value, slot_bytes, covered_bytes, record_bytes, read_slots, read_record,
}
use picobridge.ControllerStore.Check.{HasKey}

module _ {ℓ} {A : Type ℓ} where
  pub take_first : (n : ℕ) (xs ys : List A) → length xs ≡ n → take n (xs ++ ys) ≡ xs
  take_first n xs ys e = rw (← e) (take-append xs ys)

  pub drop_past : (m k : ℕ) (xs ys : List A) → m ≡ length xs + k → drop m (xs ++ ys) ≡ drop k ys
  drop_past m k [] ys e = ap (λ n. drop n ys) (omega arith)
  drop_past zero k (x ∷ xs) ys e = absurd (omega arith)
  drop_past (suc m) k (x ∷ xs) ys e = drop_past m k xs ys (omega arith)

read_slots-slot_bytes :
    (n : ℕ) (slots : List Slot) (rest : List ℕ)
    → length slots ≡ n
    → All HasKey slots
    → read_slots n (slot_bytes slots ++ rest) ≡ slots
unfolding read_slots
read_slots-slot_bytes zero [] rest e ks = refl
read_slots-slot_bytes zero (s ∷ slots) rest e ks = absurd (omega arith)
read_slots-slot_bytes (suc n) [] rest e ks = absurd (omega arith)
read_slots-slot_bytes (suc n) (s ∷ slots) rest e ks =
    rw
      (
        append_assoc s.public_key (slot_bytes slots) rest,
        take_first key_len s.public_key (slot_bytes slots ++ rest) ks.0.size,
        drop_past key_len 0 s.public_key (slot_bytes slots ++ rest) (omega (arith, ks.0.size)),
        read_slots-slot_bytes n slots rest (omega arith) ks.1,
      )
      refl

pub length-slot_bytes :
    (slots : List Slot) → All HasKey slots → length (slot_bytes slots) ≡ 33 * length slots
length-slot_bytes [] ks = refl
length-slot_bytes (s ∷ slots) ks =
    omega (
      arith,
      length-append s.public_key (slot_bytes slots),
      ks.0.size,
      length-slot_bytes slots ks.1,
    )

-- A record that fits its fields.
pub record IsRecord (r : Record) : Type 0 where
  pub magic_word : r.magic < 2 ^ 32
  pub schema_word : r.schema < 2 ^ 16
  pub reserved_word : r.reserved < 2 ^ 16
  pub generation_word : r.generation < 2 ^ 32
  pub slots_count : length r.slots ≡ 5
  pub slots_keys : All HasKey r.slots
  pub padding_size : length r.padding ≡ 3
  pub crc32_word : r.crc32 < 2 ^ 32
  pub commit_word : r.commit < 2 ^ 32

module _ (r : Record) (rest : List ℕ) (v : IsRecord r) where
  abbrev bytes : List ℕ
  bytes = record_bytes r ++ rest

  magic_same : le_value (take 4 bytes) ≡ r.magic
  unfolding record_bytes covered_bytes le_bytes
  magic_same = unfold le_value in omega (arith, v.magic_word)

  schema_same : le_value (take 2 (drop 4 bytes)) ≡ r.schema
  unfolding record_bytes covered_bytes le_bytes
  schema_same = unfold le_value in omega (arith, v.schema_word)

  reserved_same : le_value (take 2 (drop 6 bytes)) ≡ r.reserved
  unfolding record_bytes covered_bytes le_bytes
  reserved_same = unfold le_value in omega (arith, v.reserved_word)

  generation_same : le_value (take 4 (drop 8 bytes)) ≡ r.generation
  unfolding record_bytes covered_bytes le_bytes
  generation_same = unfold le_value in omega (arith, v.generation_word)

  abbrev tail : List ℕ
  tail = le_bytes 4 r.crc32 ++ (le_bytes 4 r.commit ++ rest)

  split : drop 12 bytes ≡ slot_bytes r.slots ++ (r.padding ++ tail)
  unfolding record_bytes covered_bytes le_bytes
  split =
      append_assoc (slot_bytes r.slots ++ r.padding ++ le_bytes 4 r.crc32) (le_bytes 4 r.commit)
        rest
      ∙ append_assoc (slot_bytes r.slots ++ r.padding) (le_bytes 4 r.crc32)
          (le_bytes 4 r.commit ++ rest)
      ∙ append_assoc (slot_bytes r.slots) r.padding tail

  slots_same : read_slots 5 (drop 12 bytes) ≡ r.slots
  slots_same =
      ap (λ l. read_slots 5 l) split
      ∙ read_slots-slot_bytes 5 r.slots (r.padding ++ tail) v.slots_count v.slots_keys

  behind_slots : (k : ℕ) → drop (165 + k) (drop 12 bytes) ≡ drop k (r.padding ++ tail)
  behind_slots k =
      ap (λ l. drop (165 + k) l) split
      ∙ drop_past (165 + k) k (slot_bytes r.slots) (r.padding ++ tail)
          (omega (arith, length-slot_bytes r.slots v.slots_keys, v.slots_count))

  padding_same : take 3 (drop 177 bytes) ≡ r.padding
  unfolding record_bytes covered_bytes le_bytes
  padding_same = ap (λ l. take 3 l) (behind_slots 0) ∙ take_first 3 r.padding tail v.padding_size

  crc32_same : le_value (take 4 (drop 180 bytes)) ≡ r.crc32
  unfolding record_bytes covered_bytes le_bytes
  crc32_same =
      ap (λ l. le_value (take 4 l))
        (behind_slots 3 ∙ drop_past 3 0 r.padding tail (omega (arith, v.padding_size)))
      ∙ (unfold le_value in omega (arith, v.crc32_word))

  commit_same : le_value (take 4 (drop 184 bytes)) ≡ r.commit
  unfolding record_bytes covered_bytes le_bytes
  commit_same =
      ap (λ l. le_value (take 4 l))
        (behind_slots 7 ∙ drop_past 7 4 r.padding tail (omega (arith, v.padding_size)))
      ∙ (unfold le_value in omega (arith, v.commit_word))

  -- A record read from its bytes is the record.
  pub read_record-record_bytes : read_record (record_bytes r ++ rest) ≡ r
  unfolding read_record
  read_record-record_bytes = λ i. record {
    magic = magic_same i;
    schema = schema_same i;
    reserved = reserved_same i;
    generation = generation_same i;
    slots = slots_same i;
    padding = padding_same i;
    crc32 = crc32_same i;
    commit = commit_same i;
  }
