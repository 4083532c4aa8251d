-- ===== src/ControllerStore/Flash.antt =====
-- The trust store's two flash sectors: firmware/controller_store_flash.c. The board's library is a
-- parameter: the sizes of a page and a sector, erasing a sector and programming a page of it.
pub mod Program
pub mod Sequence
pub mod Filled
pub mod PowerCut
pub mod Seed
pub mod Scenario
mod Tests
use picobridge.Prelude.{
  ℕ, zero, suc, ◌+◌, Bool, true, false, ◌&&◌, Option, none, some, List, [], ◌∷◌, ◌++◌, take, drop,
  ltb, ◌==◌, bit_or, bit_xor, if◌then◌else◌,
}
use picobridge.ControllerStore.Types.{Store, Status, ok, err_argument, err_format}
use picobridge.ControllerStore.Store.{boot, encode, initialise}

-- The two sectors as they are read.
pub record Flash : Type 0 where
  pub sector_a : List ℕ
  pub sector_b : List ℕ

pub data Half : Type 0 where
  half_a half_b : Half

abbrev pub read_half : Flash → Half → List ℕ
read_half f half_a = f.sector_a
read_half f half_b = f.sector_b

abbrev pub write_half : Flash → Half → List ℕ → Flash
write_half f half_a bytes = record f { sector_a = bytes }
write_half f half_b bytes = record f { sector_b = bytes }

-- What the board's library does to a sector: erase it, or program a page at an offset in it.
pub record Board : Type 0 where
  pub page_size : ℕ
  pub sector_size : ℕ
  pub erase : List ℕ → List ℕ
  pub program : ℕ → List ℕ → List ℕ → List ℕ

pub data FlashOp : Type 0 where
  erase_sector : FlashOp
  program_page : ℕ → List ℕ → FlashOp

-- What a call of `flash_safe_execute` does, by its documentation: it runs the function and returns
-- PICO_OK, or it returns an error, when it may not have run the function, or has run it and then
-- timed out.
pub data Execution : Type 0 where
  performed not_called timed_out : Execution

-- `memset(bytes + offset, 0xff, count)`
unfoldable pub blank : ℕ → ℕ → List ℕ → List ℕ
blank offset count [] = []
blank zero zero bytes = bytes
blank zero (suc count) (b ∷ bytes) = 0xff ∷ blank zero count bytes
blank (suc offset) count (b ∷ bytes) = b ∷ blank offset count bytes

-- The offset of the field `commit` in a record.
abbrev pub commit_offset : ℕ
commit_offset = 184

abbrev pub is_ok : Status → Bool
is_ok ok = true
is_ok _ = false

unfoldable pub boot_existing : Flash → Status × Store
boot_existing f = boot (some f.sector_a) (some f.sector_b)

-- Where the sectors hold the current store, the other one is written.
unfoldable pub target_of : Flash → Half
unfolding boot_existing
target_of f =
    let current = boot_existing f in
    let a = boot (some f.sector_a) none in
    if is_ok current.0 && is_ok a.0 && a.1.generation == current.1.generation
    then half_b
    else half_a

-- The loop over the bytes of both sectors; a bit that is not set is a change.
unfoldable pub any_change : ℕ → List ℕ → List ℕ → ℕ
any_change changed (a ∷ left) (b ∷ right) =
    any_change (bit_or changed (bit_or (bit_xor a 0xff) (bit_xor b 0xff))) left right
any_change changed _ _ = changed

unfoldable pub sectors_are_erased : Flash → Bool
sectors_are_erased f = any_change 0 f.sector_a f.sector_b == 0

module _ (board : Board) where
  unfoldable pub run_op : FlashOp → List ℕ → List ℕ
  run_op erase_sector bytes = board.erase bytes
  run_op (program_page offset page) bytes = board.program offset page bytes

  unfoldable pub run_ops : List FlashOp → List ℕ → List ℕ
  run_ops [] bytes = bytes
  run_ops (op ∷ ops) bytes = run_ops ops (run_op op bytes)

  -- The loop over the pages after the first. Each round moves on by a page, so that fuel for the
  -- bytes of a sector is enough.
  unfoldable pub later_pages : ℕ → ℕ → List ℕ → List FlashOp
  later_pages zero page sector = []
  later_pages (suc fuel) page sector =
      let rest = later_pages fuel (page + board.page_size) sector in
      if ltb page board.sector_size
      then program_page page (take board.page_size (drop page sector)) ∷ rest
      else []

  -- The operations of `program_sector` before the last one, and the last.
  unfoldable pub preparing : List ℕ → List FlashOp
  preparing sector =
      erase_sector
      ∷ program_page 0 (blank commit_offset 4 (take board.page_size sector))
      ∷ later_pages board.sector_size board.page_size sector

  unfoldable pub program_sector : List ℕ → List FlashOp
  program_sector sector = preparing sector ++ program_page 0 (take board.page_size sector) ∷ []

  -- The check that a commit ends with.
  abbrev pub verify : Flash → Store → Status × Flash
  verify f store =
      let verified = boot_existing f in
      if is_ok verified.0 && verified.1.generation == store.generation
      then (ok, f)
      else (err_format, f)

  -- What the sectors are after `program_sector` has been run on the one that is written.
  abbrev pub programmed : Flash → List ℕ → Flash
  programmed f sector =
      let half = target_of f in
      write_half f half (run_ops (program_sector sector) (read_half f half))

  unfoldable pub write_store : Flash → Store → Execution → Option (List ℕ) → Status × Flash
  write_store f store granted none = (err_format, f)
  write_store f store performed (some sector) = verify (programmed f sector) store
  write_store f store not_called (some sector) = (err_format, f)
  write_store f store timed_out (some sector) = (err_format, programmed f sector)

  unfoldable pub commit : Flash → Store → Execution → Status × Flash
  commit f store granted =
      let current = boot_existing f in
      if is_ok current.0 && current.1.generation == store.generation
      then (err_argument, f)
      else write_store f store granted (encode store board.sector_size)

  -- What a call of `boot_or_seed` leaves: its status, `*store` and the sectors.
  pub record Seeded : Type 0 where
    pub status : Status
    pub store : Store
    pub flash : Flash

  abbrev pub seeded : Store → Status × Flash → Seeded
  seeded store (status, f) = record { status = status; store = store; flash = f }

  -- A first store is written for the recovery key when it is accepted.
  unfoldable pub seed : Flash → Execution → Status × Store → Seeded
  seed f granted (ok, store) = seeded store (commit f store granted)
  seed f granted (status, store) = seeded store (status, f)

  unfoldable pub boot_or_seed : Flash → List ℕ → Execution → Seeded
  boot_or_seed f recovery_public_key granted =
      let booted = boot_existing f in
      if is_ok booted.0
      then seeded booted.1 (ok, f)
      else if sectors_are_erased f
      then seed f granted (initialise booted.1 recovery_public_key)
      else seeded booted.1 (err_format, f)
