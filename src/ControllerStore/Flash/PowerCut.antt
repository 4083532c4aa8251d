-- ===== src/ControllerStore/Flash/PowerCut.antt =====
-- `controller_store_flash_commit` of firmware/controller_store_flash.c, finished and cut off.
use picobridge.Prelude.{
  ℕ, ◌<◌, ◌≡◌, ◌⊎◌, inl, inr, refl, ap, ◌∙◌, arith, true, false, Option, none, some, List, take,
  drop, replicate, leb, ◌==◌, if◌then◌else◌, ◌&&◌, Bool-cases, Option-cases, ==_iff,
}
use picobridge.ControllerStore.Types.{Store, Status, ok, Record}
use picobridge.ControllerStore.Memory.{le_value, covered_bytes, read_record}
use picobridge.ControllerStore.Store.{record_valid, newer, boot, encode, header_valid}
use picobridge.ControllerStore.Valid.{IsTrusted}
use picobridge.ControllerStore.Boot.{record_valid-encode, passed}
use picobridge.ControllerStore.Flash.{
  Board, Flash, Half, half_a, half_b, read_half, write_half, commit_offset, boot_existing,
  target_of, run_ops, program_sector, commit, write_store, is_ok, performed, programmed,
}
use picobridge.ControllerStore.Flash.Program.{written, written-blank}
use picobridge.ControllerStore.Flash.Filled.{IsFilled, encode-IsFilled}
use picobridge.ControllerStore.Flash.Sequence.{
  IsBoard, image, program_sector_all, program_sector_cut,
}

header_commit :
    (r : Record) (covered : List ℕ) → header_valid r covered ≡ true → r.commit ≡ 0x43534d54
unfolding header_valid
header_commit r covered h = ground arith

-- A record without its commit marker is not accepted.
pub marker_missing :
    (bytes : List ℕ) → take 4 (drop 184 bytes) ≡ replicate 4 255 → record_valid (some bytes) ≡ none
marker_missing bytes e = elim (Option-cases (record_valid (some bytes))) [
  | inl n ↦ n
  | inr (s, h) ↦ absurd (no_marker bytes e (passed bytes s h).1)
]
  where
    no_marker :
        (bytes : List ℕ)
        → take 4 (drop 184 bytes) ≡ replicate 4 255
        → header_valid (read_record bytes) (covered_bytes (read_record bytes)) ≡ true
        → ⊥
    no_marker bytes e h =
        unfold read_record le_value replicate in
        omega (
          arith,
          header_commit (read_record bytes) (covered_bytes (read_record bytes)) h,
          ap le_value e,
        )

-- The booted store is that of one sector, and the other one is not newer.
pub data Current (f : Flash) (cur : Store) : Half → Type 0 where
  in_a : record_valid (some f.sector_a) ≡ some cur → Current f cur half_b
  in_b : record_valid (some f.sector_b) ≡ some cur → Current f cur half_a

spares :
    (f : Flash) (oa ob : Option Store) (cur : Store)
    → record_valid (some f.sector_a) ≡ oa
    → record_valid (some f.sector_b) ≡ ob
    → newer oa ob ≡ (ok, cur)
    → Current f cur (
        if is_ok (newer oa ob).0
          && is_ok (newer oa none).0
          && (newer oa none).1.generation == (newer oa ob).1.generation
        then half_b
        else half_a)
unfolding newer
spares f none none cur ea eb h = absurd (ground arith)
spares f none (some b) cur ea eb h = in_b (eb ∙ ap (λ (p : Status × Store). some p.1) h)
spares f (some a) none cur ea eb h =
    let same : (a.generation == a.generation) ≡ true = (==_iff _ _).1 refl in
    rw same (in_a (ea ∙ ap (λ (p : Status × Store). some p.1) h))
spares f (some a) (some b) cur ea eb h = elim (Bool-cases (leb b.generation a.generation)) [
  | inl le ↦
      let same : (a.generation == a.generation) ≡ true = (==_iff _ _).1 refl in
      rw (le, same) (in_a (ea ∙ ap (λ (p : Status × Store). some p.1) (rw le at h)))
  | inr gt ↦
      let other : (a.generation == b.generation) ≡ false = ground arith in
      rw (gt, other) (in_b (eb ∙ ap (λ (p : Status × Store). some p.1) (rw gt at h)))
]

-- The sector that is not written holds the current store.
target_spares :
    (f : Flash) (cur : Store) → boot_existing f ≡ (ok, cur) → Current f cur (target_of f)
unfolding target_of boot_existing boot record_valid
target_spares f cur h =
    spares f (record_valid (some f.sector_a)) (record_valid (some f.sector_b)) cur refl refl h

-- Writing the other sector boots the current store as long as what is written is not a record, and
-- the new one when it is a newer record.
other_invalid :
    (f : Flash) (cur : Store) (half : Half) (bytes : List ℕ)
    → Current f cur half
    → record_valid (some bytes) ≡ none
    → boot_existing (write_half f half bytes) ≡ (ok, cur)
unfolding boot_existing boot newer
other_invalid f cur half_b bytes (in_a e) n = rw (e, n) refl
other_invalid f cur half_a bytes (in_b e) n = rw (e, n) refl

other_newer :
    (f : Flash) (cur store : Store) (half : Half) (bytes : List ℕ)
    → Current f cur half
    → cur.generation < store.generation
    → record_valid (some bytes) ≡ some store
    → boot_existing (write_half f half bytes) ≡ (ok, store)
unfolding boot_existing boot newer
other_newer f cur store half_b bytes (in_a e) lt n =
    let older : leb store.generation cur.generation ≡ false = ground arith in rw (e, n, older) refl
other_newer f cur store half_a bytes (in_b e) lt n =
    let older : leb cur.generation store.generation ≡ true = ground arith in rw (e, n, older) refl

write_same : (f : Flash) (half : Half) → write_half f half (read_half f half) ≡ f
write_same f half_a = refl
write_same f half_b = refl

module _ (board : Board) (f : Flash) (cur store : Store) (sector : List ℕ) (b : IsBoard board)
    (t : IsTrusted store) (booted : boot_existing f ≡ (ok, cur))
    (newer_store : cur.generation < store.generation)
    (enc : encode store board.sector_size ≡ some sector) where
  filled : IsFilled store board.sector_size sector
  filled = encode-IsFilled store board.sector_size sector t enc

  valid : record_valid (some sector) ≡ some store
  valid = record_valid-encode store board.sector_size sector t enc

  boots_new : boot_existing (write_half f (target_of f) sector) ≡ (ok, store)
  boots_new =
      other_newer f cur store (target_of f) sector (target_spares f cur booted) newer_store valid

  -- On a board that works as its manual says, a commit of a trusted store that is newer than the
  -- booted one and fits a sector, cut off after any number of its flash operations, leaves two
  -- sectors that boot either the current store or the new one.
  pub power_cut :
      (k : ℕ)
      → let left =
          write_half f
            (target_of f)
            (run_ops board (take k (program_sector board sector)) (read_half f (target_of f))) in
        (boot_existing left ≡ (ok, cur)) ⊎ (boot_existing left ≡ (ok, store))
  power_cut k =
      let half = target_of f in
      let old = read_half f half in
      elim (program_sector_cut board b sector filled.fits filled.bytes k old) [
        | inl same ↦ inl (
            ap (λ l. boot_existing (write_half f half l)) same
            ∙ ap boot_existing (write_same f half)
            ∙ booted)
        | inr (inl (q, w)) ↦ inl (
            ap (λ l. boot_existing (write_half f half l)) w
            ∙ other_invalid f cur half (written q (image board b sector filled.fits filled.bytes))
                (target_spares f cur booted)
                (marker_missing _ (
                  written-blank q commit_offset 4 sector
                    (omega (arith, filled.fits, b.holds_record, b.holds_page)))))
        | inr (inr all) ↦ inr (ap (λ l. boot_existing (write_half f half l)) all ∙ boots_new)
      ]

  -- The same when all of them have run.
  pub programmed-boots : boot_existing (programmed board f sector) ≡ (ok, store)
  programmed-boots =
      ap (λ l. boot_existing (write_half f (target_of f) l))
        (program_sector_all board b sector filled.fits filled.bytes (read_half f (target_of f)))
      ∙ boots_new

  -- On a board that works as its manual says, a commit of a trusted store that is newer than the
  -- booted one and fits a sector returns OK when `flash_safe_execute` succeeds, and what it leaves
  -- boots the new store.
  pub commit-boots :
      ((commit board f store performed).0 ≡ ok)
      × (boot_existing (commit board f store performed).1 ≡ (ok, store))
  unfolding commit write_store
  commit-boots =
      let all =
        program_sector_all board b sector filled.fits filled.bytes (read_half f (target_of f)) in
      let other : (cur.generation == store.generation) ≡ false = ground arith in
      let same : (store.generation == store.generation) ≡ true = (==_iff _ _).1 refl in
      rw (booted, other, enc, all, boots_new, same) (refl, boots_new)
