-- ===== src/Bridge.antt =====
-- The firmware's command channel and its USB output: firmware/bridge_main.c. The state that its
-- functions share is a record, and what the board and the stacks answer during a call an argument.
pub mod Handlers
pub mod Frames
pub mod Outcome
pub mod Admin
pub mod Setup
pub mod Hid
pub mod StageFrame
pub mod Fragments
pub mod Sound
mod Tests
use picobridge.Prelude.{ℕ, ◌+◌, Bool, Option, List}
use picobridge.BridgeCore.Types.{
  Status, ok, done, err_argument, err_state, err_busy, err_limit, err_utf8, err_unsupported,
  err_policy, err_owner, err_id, err_expired, err_replay, Core,
}
use picobridge.ControllerStore.Types.{Store}
use picobridge.ControllerStore.Flash.{Flash, Execution}
use picobridge.NoiseIk.{Session, max_plaintext}

abbrev pub ble_cmd_buf_max : ℕ
ble_cmd_buf_max = max_plaintext + 64

-- The static state. `ble_cmd_buf` is the first `ble_cmd_pos` bytes of the buffer, and
-- `cmd_char_read` the bytes to read when they are valid. The sectors of the flash that the program
-- writes are state as well.
pub record Machine : Type 0 where
  pub core : Core
  pub controllers : Store
  pub flash : Flash
  pub radio : List ℕ
  pub session : Session
  pub ble_cmd_buf : List ℕ
  pub ble_cmd_active : Bool
  pub cmd_char_read : Option (List ℕ)
  pub cmd_ack_status : ℕ
  pub ble_now_ms : ℕ

-- What the queries of firmware/net_endpoint.c answer.
pub record Diagnostics : Type 0 where
  pub state : ℕ
  pub link : ℕ  -- as a uint8_t
  pub raw : ℕ
  pub dhcp : ℕ
  pub ip_octet : ℕ → ℕ
  pub scan_start : Bool
  pub scan_total : ℕ
  pub scan_match : ℕ
  pub scan_rssi : ℕ  -- as a uint8_t
  pub probe : ℕ

-- What a call meets: whether a USB host is mounted, what `flash_safe_execute` does, the random
-- key pair of a handshake, and the network's queries in a build with BRIDGE_ENABLE_NET.
pub record World : Type 0 where
  pub mounted : Bool
  pub granted : Execution
  pub keypair : Option (List ℕ × List ℕ)
  pub diagnostics : Option Diagnostics

-- A `bridge_status_t` as a byte.
unfoldable pub status_byte : Status → ℕ
status_byte ok = 0
status_byte done = 1
status_byte err_argument = 2
status_byte err_state = 3
status_byte err_busy = 4
status_byte err_limit = 5
status_byte err_utf8 = 6
status_byte err_unsupported = 7
status_byte err_policy = 8
status_byte err_owner = 9
status_byte err_id = 10
status_byte err_expired = 11
status_byte err_replay = 12
