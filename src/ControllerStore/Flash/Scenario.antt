-- ===== src/ControllerStore/Flash/Scenario.antt =====
-- A board and a flash with a first store, on which the theorems about the controllers of
-- firmware/controller_store_flash.c are tried.
use picobridge.Prelude.{ℕ, ◌≡◌, refl, arith, some, List, ◌∷◌, ◌++◌, replicate}
use picobridge.ControllerStore.Types.{Store, ok}
use picobridge.ControllerStore.Memory.{record_bytes}
use picobridge.ControllerStore.Store.{
  initialise, encode, sealed, empty, key_is_zero, any_bit, boot, newer,
}
use picobridge.ControllerStore.Valid.{IsTrusted}
use picobridge.ControllerStore.Check.{IsKey}
use picobridge.ControllerStore.Boot.{record_valid-encode}
use picobridge.ControllerStore.Trust.{initialise-IsTrusted}
use picobridge.ControllerStore.Flash.{Board, Flash, boot_existing}
use picobridge.ControllerStore.Flash.Program.{and_at}
use picobridge.ControllerStore.Flash.Sequence.{IsBoard}
use picobridge.ControllerStore.Flash.PowerCut.{marker_missing}

-- A board with two pages a sector.
abbrev pub small_board : Board
small_board = record {
  page_size = 200;
  sector_size = 400;
  erase = λ bytes. replicate 400 0xff;
  program = and_at;
}

pub small_board-IsBoard : IsBoard small_board
small_board-IsBoard = record {
  holds_record = omega arith;
  holds_page = omega arith;
  erases = λ bytes. refl;
  programs = λ offset page bytes. refl;
}

abbrev pub owner_key : List ℕ
owner_key = 9 ∷ replicate 31 0

pub owner_key-IsKey : IsKey owner_key
unfolding replicate
owner_key-IsKey = record { size = refl; bytes = ground arith }

abbrev pub first_store : Store
first_store = (initialise empty owner_key).1

pub first_store-IsTrusted : IsTrusted first_store
unfolding initialise key_is_zero any_bit replicate
first_store-IsTrusted = initialise-IsTrusted empty owner_key owner_key-IsKey refl

abbrev pub sector_of : Store → List ℕ
sector_of s = record_bytes (sealed s) ++ replicate 212 0xff

pub sector_of-encode : (s : Store) → encode s 400 ≡ some (sector_of s)
unfolding encode
sector_of-encode s = refl

abbrev pub flash : Flash
flash = record { sector_a = sector_of first_store; sector_b = replicate 400 0xff }

pub flash_boots : boot_existing flash ≡ (ok, first_store)
unfolding boot_existing boot newer
flash_boots =
    rw
      (
        record_valid-encode first_store 400 (sector_of first_store) first_store-IsTrusted
            (sector_of-encode first_store),
        marker_missing (replicate 400 0xff) (unfold replicate in refl),
      )
      refl
