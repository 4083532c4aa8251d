-- ===== src/ControllerStore/Store.antt =====
-- The functions of firmware/controller_store.c on records. A sector may be NULL; the tests for a
-- NULL store, key or output buffer are left out.
use picobridge.Prelude.{
  ℕ, zero, suc, ◌+◌, ◌-◌, ◌^◌, Bool, false, not, ◌&&◌, ◌||◌, Option, none, some, List, [], ◌∷◌,
  ◌++◌, length, get_or, set, replicate, ltb, leb, ◌==◌, if◌then◌else◌, bit_and, bit_or, bit_xor,
  u32, ◌>>>◌,
}
use picobridge.ControllerStore.Types.{
  slot_count, schema_version, store_magic, commit_marker, role_none, role_operator, role_admin,
  role_recovery_admin, Slot, empty_slot, Store, Status, ok, err_argument, err_format, Record,
  record_size,
}
use picobridge.ControllerStore.Memory.{covered_bytes, record_bytes, read_record}

unfoldable pub role_valid : ℕ → Bool
role_valid role =
    role == role_none || role == role_operator || role == role_admin || role == role_recovery_admin

unfoldable pub any_bit : ℕ → List ℕ → ℕ
any_bit value [] = value
any_bit value (b ∷ bs) = any_bit (bit_or value b) bs

unfoldable pub key_is_zero : List ℕ → Bool
key_is_zero key = any_bit 0 key == 0

-- The loop of `ct_equal`; `len` is the length of both lists.
unfoldable pub any_difference : ℕ → List ℕ → List ℕ → ℕ
any_difference different (l ∷ left) (r ∷ right) =
    any_difference (bit_or different (bit_xor l r)) left right
any_difference different _ _ = different

unfoldable pub ct_equal : List ℕ → List ℕ → Bool
ct_equal left right = any_difference 0 left right == 0

-- One bit of the CRC. `mask` is all ones for a low bit that is set, and 0 otherwise.
abbrev pub crc_bit : ℕ → ℕ
crc_bit crc =
    let mask = u32 (2 ^ 32 - bit_and crc 1) in bit_xor (crc >>> 1) (bit_and 0xedb88320 mask)

unfoldable pub crc_bits : ℕ → ℕ → ℕ
crc_bits zero crc = crc
crc_bits (suc n) crc = crc_bits n (crc_bit crc)

unfoldable pub crc_loop : ℕ → List ℕ → ℕ
crc_loop crc [] = crc
crc_loop crc (b ∷ bs) = crc_loop (crc_bits 8 (bit_xor crc b)) bs

-- `~crc` of a uint32_t.
unfoldable pub crc32 : List ℕ → ℕ
crc32 bytes = u32 (bit_xor (crc_loop 0xffffffff bytes) 0xffffffff)

unfoldable pub empty : Store
empty = record { generation = 0; slots = replicate slot_count empty_slot }

-- The loop over `j`: a used slot before this one has the same key.
unfoldable pub has_same_key : Slot → List Slot → Bool
has_same_key s [] = false
has_same_key s (t ∷ earlier) =
    (not (s.role == role_none) && not (t.role == role_none) && ct_equal s.public_key t.public_key)
    || has_same_key s earlier

-- The tests on one slot's role and key.
unfoldable pub slot_valid : Slot → Bool
slot_valid s =
    role_valid s.role
    && (if s.role == role_none then key_is_zero s.public_key else not (key_is_zero s.public_key))

-- The loop over `i`, behind the slots `earlier`; it returns `recovery_count`.
unfoldable pub check_slots : List Slot → List Slot → ℕ → Option ℕ
check_slots earlier [] recovery_count = some recovery_count
check_slots earlier (s ∷ slots) recovery_count =
    let next_count = if s.role == role_recovery_admin then recovery_count + 1 else recovery_count in
    let rest = check_slots (earlier ++ s ∷ []) slots next_count in
    if not (slot_valid s) then none else if has_same_key s earlier then none else rest

unfoldable pub header_valid : Record → List ℕ → Bool
header_valid r bytes =
    r.magic == store_magic
    && r.schema == schema_version
    && r.reserved == 0
    && r.commit == commit_marker
    && r.crc32 == crc32 bytes

-- The first slot's role, and that one slot is the recovery administrator's.
unfoldable pub recovery_valid : List Slot → Option ℕ → Bool
recovery_valid slots none = false
recovery_valid slots (some count) =
    (get_or slots 0 empty_slot).role == role_recovery_admin && count == 1

unfoldable pub record_valid : Option (List ℕ) → Option Store
record_valid none = none
record_valid (some bytes) =
    let r = read_record bytes in
    if ltb (length bytes) record_size
    then none
    else if not (header_valid r (covered_bytes r))
    then none
    else if not (recovery_valid r.slots (check_slots [] r.slots 0))
    then none
    else some (record { generation = r.generation; slots = r.slots })

-- The choice between the sectors' records.
unfoldable pub newer : Option Store → Option Store → Status × Store
unfolding empty
newer none none = (err_format, empty)
newer none (some b) = (ok, b)
newer (some a) none = (ok, a)
newer (some a) (some b) = (ok, if leb b.generation a.generation then a else b)

unfoldable pub boot : Option (List ℕ) → Option (List ℕ) → Status × Store
boot sector_a sector_b = newer (record_valid sector_a) (record_valid sector_b)

unfoldable pub initialise : Store → List ℕ → Status × Store
unfolding empty
initialise store recovery_public_key =
    if key_is_zero recovery_public_key then (err_argument, store) else (
      ok,
      record {
        generation = 1;
        slots =
            set empty.slots 0
              (record { role = role_recovery_admin; public_key = recovery_public_key });
      },
    )

-- The record of a store before its CRC and its commit marker are written.
abbrev pub unsealed : Store → Record
unsealed store = record {
  magic = store_magic;
  schema = schema_version;
  reserved = 0;
  generation = store.generation;
  slots = store.slots;
  padding = replicate 3 0xff;
  crc32 = 0xffffffff;
  commit = 0xffffffff;
}

unfoldable pub sealed : Store → Record
sealed store = record (unsealed store) {
  crc32 = crc32 (covered_bytes (unsealed store));
  commit = commit_marker;
}

-- What `encode` writes to a buffer of `out_len` bytes, or `none` when it is too short.
unfoldable pub encode : Store → ℕ → Option (List ℕ)
encode store out_len =
    if ltb out_len record_size
    then none
    else some (record_bytes (sealed store) ++ replicate (out_len - record_size) 0xff)
