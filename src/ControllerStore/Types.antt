-- ===== src/ControllerStore/Types.antt =====
-- The data of firmware/controller_store.h: limits, roles, slots, the store and its flash record.
-- A key is the list of its bytes, and the slots are the array of them.
use picobridge.Prelude.{ℕ, List, replicate}

abbrev pub slot_count : ℕ
slot_count = 5

abbrev pub key_len : ℕ
key_len = 32

abbrev pub schema_version : ℕ
schema_version = 1

abbrev pub store_magic : ℕ
store_magic = 0x50424353

abbrev pub commit_marker : ℕ
commit_marker = 0x43534d54

-- `controller_role_t`. A role stays a number, since a record read from flash may hold any byte.
abbrev pub role_none : ℕ
role_none = 0

abbrev pub role_operator : ℕ
role_operator = 1

abbrev pub role_admin : ℕ
role_admin = 2

abbrev pub role_recovery_admin : ℕ
role_recovery_admin = 3

-- `controller_slot_t`
pub record Slot : Type 0 where
  pub role : ℕ  -- uint8_t
  pub public_key : List ℕ

abbrev pub empty_slot : Slot
empty_slot = record { role = 0; public_key = replicate key_len 0 }

-- `controller_store_t`
pub record Store : Type 0 where
  pub generation : ℕ  -- uint32_t
  pub slots : List Slot

-- `controller_store_status_t`
pub data Status : Type 0 where
  ok err_argument err_format err_full err_duplicate err_role err_immutable err_not_found : Status

-- `controller_store_record_t`, with the three bytes of padding before the CRC, which it covers.
pub record Record : Type 0 where
  pub magic : ℕ  -- uint32_t
  pub schema : ℕ  -- uint16_t
  pub reserved : ℕ  -- uint16_t
  pub generation : ℕ  -- uint32_t
  pub slots : List Slot
  pub padding : List ℕ
  pub crc32 : ℕ  -- uint32_t
  pub commit : ℕ  -- uint32_t

abbrev pub record_size : ℕ
record_size = 188
