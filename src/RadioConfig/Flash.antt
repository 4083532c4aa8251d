-- ===== src/RadioConfig/Flash.antt =====
-- The radio's flash sector: firmware/radio/radio_provision_flash.c. The board's library is the
-- parameter of ControllerStore/Flash.
pub mod Provision
use picobridge.Prelude.{
  ℕ, Bool, false, not, ◌&&◌, Option, none, some, List, [], ◌∷◌, length, ◌==◌, if◌then◌else◌,
}
use picobridge.DhcpWire.{same_bytes}
use picobridge.ControllerStore.Flash.{
  Board, FlashOp, erase_sector, run_ops, later_pages, Execution, performed, not_called, timed_out,
}
use picobridge.RadioConfig.{Config, all_erased, parse2}

-- `strncmp` of two strings in arrays of one size.
unfoldable pub same_string : List ℕ → List ℕ → Bool
same_string left right = length left == length right && same_bytes left right

-- The checks after the sector has been programmed: the answer and the sector.
unfoldable pub confirm_written : Config → List ℕ → List ℕ → Bool × List ℕ
confirm_written candidate image readback =
    if not (same_bytes readback image) then (false, readback) else elim (parse2 readback) [
      | none ↦ (false, readback)
      | some persisted ↦ (
        same_string persisted.ssid candidate.ssid && same_string persisted.psk candidate.psk,
        readback,
      )
    ]

module _ (board : Board) where
  -- `radio_program_sector` and `radio_erase_sector` as operations.
  unfoldable pub radio_program_sector : List ℕ → List FlashOp
  radio_program_sector image = erase_sector ∷ later_pages board board.sector_size 0 image

  unfoldable pub radio_erase_sector : List FlashOp
  radio_erase_sector = erase_sector ∷ []

  -- The sector before, the image, and what `flash_safe_execute` does.
  unfoldable pub write_and_verify : List ℕ → List ℕ → Execution → Bool × List ℕ
  write_and_verify sector image granted = elim (parse2 image) [
    | none ↦ (false, sector)
    | some candidate ↦
        let programmed = run_ops board (radio_program_sector image) sector in
        elim granted [
          | performed ↦ confirm_written candidate image programmed
          | not_called ↦ (false, sector)
          | timed_out ↦ (false, programmed)
        ]
  ]

  unfoldable pub clear : List ℕ → Execution → Bool × List ℕ
  clear sector granted =
      let erased = run_ops board radio_erase_sector sector in
      elim granted [
        | performed ↦ (all_erased erased, erased)
        | not_called ↦ (false, sector)
        | timed_out ↦ (false, erased)
      ]

-- `radio_provision_flash_read`
abbrev pub read : List ℕ → Option Config
read sector = parse2 sector
