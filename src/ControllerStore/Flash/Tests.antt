-- ===== src/ControllerStore/Flash/Tests.antt =====
-- The theorems on the flash sectors at a concrete board and store.
use picobridge.ControllerStore.Flash.Scenario.{
  small_board, small_board-IsBoard, owner_key, first_store, first_store-IsTrusted, sector_of,
  sector_of-encode, flash, flash_boots,
}
use picobridge.Prelude.{false, ◌==◌, ◌≢◌, ◌<◌, ◌≡◌, ◌⊎◌, refl, ap, get_or, arith, take, replicate}
use picobridge.ControllerStore.Types.{Store, ok}
use picobridge.ControllerStore.Memory.{
  record_bytes, covered_bytes, le_bytes, le_value, read_record, read_slots,
}
use picobridge.ControllerStore.Store.{
  initialise, encode, sealed, empty, key_is_zero, any_bit, boot, newer, record_valid, header_valid,
  crc32, crc_loop, crc_bits, check_slots, slot_valid, role_valid, has_same_key, ct_equal,
  any_difference, recovery_valid,
}
use picobridge.ControllerStore.Valid.{IsTrusted}
use picobridge.ControllerStore.Flash.{
  Flash, boot_existing, target_of, read_half, write_half, run_ops, run_op, program_sector,
  preparing, later_pages, commit, write_store, boot_or_seed, seed, sectors_are_erased, any_change,
  blank, performed, timed_out,
}
use picobridge.ControllerStore.Flash.Program.{and_at}
use picobridge.ControllerStore.Flash.Seed.{IsErased, boot_or_seed-IsErased}
use picobridge.ControllerStore.Flash.PowerCut.{power_cut, commit-boots, programmed-boots}

abbrev second_store : Store
second_store = record first_store { generation = 2 }

second_store-IsTrusted : IsTrusted second_store
unfolding initialise key_is_zero any_bit
second_store-IsTrusted =
    let t = first_store-IsTrusted in
    record {
      word = omega arith;
      count = t.count;
      good = t.good;
      apart = t.apart;
      recovery = t.recovery;
    }

one_newer : first_store.generation < second_store.generation
unfolding initialise key_is_zero any_bit replicate
one_newer = omega arith

power_cut_example :
    let left = write_half flash (target_of flash) (
      run_ops small_board
        (take 2 (program_sector small_board (sector_of second_store)))
        (read_half flash (target_of flash))) in
    (boot_existing left ≡ (ok, first_store)) ⊎ (boot_existing left ≡ (ok, second_store))
power_cut_example =
    power_cut small_board flash first_store second_store (sector_of second_store)
      small_board-IsBoard second_store-IsTrusted flash_boots one_newer
      (sector_of-encode second_store) 2

commit-boots_example :
    ((commit small_board flash second_store performed).0 ≡ ok)
    × (boot_existing (commit small_board flash second_store performed).1 ≡ (ok, second_store))
commit-boots_example =
    commit-boots small_board flash first_store second_store (sector_of second_store)
      small_board-IsBoard second_store-IsTrusted flash_boots one_newer
      (sector_of-encode second_store)

abbrev bare : Flash
bare = record { sector_a = replicate 400 0xff; sector_b = replicate 400 0xff }

abbrev born : Flash
born = (boot_or_seed small_board bare owner_key performed).flash

born_starts : get_or born.sector_a 0 0 ≡ 0x53
unfolding boot_or_seed boot_existing boot newer record_valid sectors_are_erased any_change seed
    commit write_store target_of run_ops run_op program_sector preparing later_pages and_at blank
    initialise empty key_is_zero any_bit encode sealed record_bytes covered_bytes le_bytes le_value
    read_record read_slots header_valid crc32 crc_loop crc_bits check_slots slot_valid role_valid
    has_same_key ct_equal any_difference recovery_valid replicate
born_starts = refl

bare_starts : get_or bare.sector_a 0 0 ≡ 0xff
unfolding replicate
bare_starts = refl

boot_or_seed-IsErased_example : IsErased bare.sector_a × IsErased bare.sector_b
boot_or_seed-IsErased_example =
    boot_or_seed-IsErased small_board bare owner_key performed refl (λ same.
      omega (arith, born_starts, bare_starts, ap (λ (f : Flash). get_or f.sector_a 0 0) same))

-- A commit whose call of `flash_safe_execute` has timed out behind the last operation reports an
-- error, and the flash boots the new store.
timed_out-boots :
    ((commit small_board flash second_store timed_out).0 ≢ ok)
    × (boot_existing (commit small_board flash second_store timed_out).1 ≡ (ok, second_store))
unfolding commit write_store
timed_out-boots =
    let other : (first_store.generation == second_store.generation) ≡ false =
      ground (arith, one_newer) in
    rw (flash_boots, other, sector_of-encode second_store)
      (
        (λ e. cc),
        programmed-boots small_board flash first_store second_store (sector_of second_store)
            small_board-IsBoard second_store-IsTrusted flash_boots one_newer
            (sector_of-encode second_store),
      )
