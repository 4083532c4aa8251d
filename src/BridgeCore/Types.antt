-- ===== src/BridgeCore/Types.antt =====
-- The data of firmware/core/bridge_core.h: limits, enumerations, strokes and the core itself.
-- Layouts, modes and flags stay numbers, since the stage command checks what a caller passes.
use picobridge.Prelude.{ℕ, ◌*◌, Bool, List, replicate, ◌==◌, bit_and, not}

abbrev pub max_input_bytes : ℕ
max_input_bytes = 1024

abbrev pub max_strokes : ℕ
max_strokes = 2 * max_input_bytes

abbrev pub max_ttl_ms : ℕ
max_ttl_ms = 15000

abbrev pub replay_capacity : ℕ
replay_capacity = 64

abbrev pub flag_allow_lf : ℕ
flag_allow_lf = 1

abbrev pub flag_allow_tab : ℕ
flag_allow_tab = 2

abbrev pub mod_left_shift : ℕ
mod_left_shift = 2

-- `bridge_layout_t`
abbrev pub layout_us : ℕ
layout_us = 1

abbrev pub layout_de : ℕ
layout_de = 2

-- `bridge_mode_t`
abbrev pub mode_password : ℕ
mode_password = 1

abbrev pub mode_text : ℕ
mode_text = 2

-- `bridge_status_t`
pub data Status : Type 0 where
  ok done err_argument err_state err_busy err_limit err_utf8 err_unsupported : Status
  err_policy err_owner err_id err_expired err_replay : Status

-- `bridge_state_t`
pub data State : Type 0 where
  empty staged executing completed cancelled expired rejected : State

pub record Stroke : Type 0 where
  pub modifier : ℕ  -- uint8_t
  pub usage : ℕ  -- uint8_t

abbrev pub no_stroke : Stroke
no_stroke = record { modifier = 0; usage = 0 }

-- One cell of the replay ledger.
pub record Ticket : Type 0 where
  pub owner : ℕ  -- uint32_t
  pub id : ℕ  -- uint32_t

-- `bridge_core_t`. `replay` is the first `replay_count` cells of the ledger's array, so
-- `replay_count` is its length; `strokes` is the whole array, with its unused cells.
pub record Core : Type 0 where
  pub replay : List Ticket
  pub state : State
  pub owner : ℕ  -- uint32_t
  pub id : ℕ  -- uint32_t
  pub staged_at_ms : ℕ  -- uint32_t
  pub ttl_ms : ℕ  -- uint32_t
  pub layout : ℕ
  pub mode : ℕ
  pub flags : ℕ  -- uint8_t
  pub stroke_count : ℕ
  pub cursor : ℕ
  pub strokes : List Stroke

-- The core with its job region wiped and the given state: `terminate`. The ledger stays.
unfoldable pub terminate : Core → State → Core
terminate core state = record {
  replay = core.replay;
  state = state;
  owner = 0;
  id = 0;
  staged_at_ms = 0;
  ttl_ms = 0;
  layout = 0;
  mode = 0;
  flags = 0;
  stroke_count = 0;
  cursor = 0;
  strokes = replicate max_strokes no_stroke;
}

-- `(flags & bit)` as a condition.
abbrev pub has_flag : ℕ → ℕ → Bool
has_flag flags bit = not (bit_and flags bit == 0)
