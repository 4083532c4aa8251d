-- ===== src/ControllerStore/Memory.antt =====
-- How a controller_store_record_t lies in memory: little-endian fields in order, 33 bytes a slot.
-- This is the layout that `memcpy` reads and writes in firmware/controller_store.c.
pub mod RoundTrip
use picobridge.Prelude.{ℕ, zero, suc, ◌+◌, ◌*◌, ◌/◌, ◌%◌, List, [], ◌∷◌, ◌++◌, take, drop, get_or}
use picobridge.ControllerStore.Types.{Slot, Record, slot_count, key_len}

-- A number as `n` bytes, the lowest first, and back.
unfoldable pub le_bytes : ℕ → ℕ → List ℕ
le_bytes zero x = []
le_bytes (suc n) x = x % 256 ∷ le_bytes n (x / 256)

unfoldable pub le_value : List ℕ → ℕ
le_value [] = 0
le_value (b ∷ bs) = b + 256 * le_value bs

abbrev pub slot_bytes : List Slot → List ℕ
slot_bytes [] = []
slot_bytes (s ∷ ss) = s.role ∷ s.public_key ++ slot_bytes ss

-- The bytes before the field `crc32`.
unfoldable pub covered_bytes : Record → List ℕ
covered_bytes r =
    le_bytes 4 r.magic
    ++ le_bytes 2 r.schema
    ++ le_bytes 2 r.reserved
    ++ le_bytes 4 r.generation
    ++ slot_bytes r.slots
    ++ r.padding

unfoldable pub record_bytes : Record → List ℕ
record_bytes r = covered_bytes r ++ le_bytes 4 r.crc32 ++ le_bytes 4 r.commit

unfoldable pub read_slots : ℕ → List ℕ → List Slot
read_slots zero bytes = []
read_slots (suc n) bytes =
    record { role = get_or bytes 0 0; public_key = take key_len (drop 1 bytes) }
    ∷ read_slots n (drop 33 bytes)

-- `memcpy(&record, data, sizeof(record))`
unfoldable pub read_record : List ℕ → Record
read_record bytes = record {
  magic = le_value (take 4 bytes);
  schema = le_value (take 2 (drop 4 bytes));
  reserved = le_value (take 2 (drop 6 bytes));
  generation = le_value (take 4 (drop 8 bytes));
  slots = read_slots slot_count (drop 12 bytes);
  padding = take 3 (drop 177 bytes);
  crc32 = le_value (take 4 (drop 180 bytes));
  commit = le_value (take 4 (drop 184 bytes));
}
