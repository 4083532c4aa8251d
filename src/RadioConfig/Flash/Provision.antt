-- ===== src/RadioConfig/Flash/Provision.antt =====
-- Provisioning of the radio in firmware/radio/radio_provision_flash.c on a board that works as its
-- manual says.
use picobridge.Prelude.{
  ℕ, zero, suc, ◌+◌, ◌-◌, ◌≤◌, ◌<◌, ◌≡◌, inl, inr, refl, sym, ap, ◌∙◌, arith, Bool, true, some,
  List, [], ◌∷◌, ◌++◌, length, take, drop, replicate, ltb, ==_iff, Bool-cases, All, All-append,
}
use mathlib.Core.Path.{subst}
use picobridge.DhcpWire.{same_bytes}
use picobridge.ControllerStore.Memory.{le_bytes}
use picobridge.ControllerStore.Flash.{Board, run_op, run_ops, later_pages, performed}
use picobridge.ControllerStore.Flash.Filled.{le_bytes-bytes, All-replicate}
use picobridge.ControllerStore.Flash.Program.{written, written_nothing, written_all, and_at-written}
use picobridge.ControllerStore.Flash.Sequence.{IsBoard}
use picobridge.RadioConfig.{
  Config, schema_2, all_printable, inputs_ok, lens, build_crc, image_of, parse2, build2,
}
use picobridge.RadioConfig.RoundTrip.{parse2-build2, length-build2}
use picobridge.RadioConfig.Flash.{
  same_string, confirm_written, radio_program_sector, write_and_verify, read,
}

module _ (board : Board) (b : IsBoard board) (image : List ℕ)
    (fits : length image ≡ board.sector_size) (bytes : All (λ x. x < 256) image) where
  -- The pages from `p` on complete an image that is written up to `p`.
  pages_all :
      (fuel p : ℕ)
      → board.sector_size ≤ p + fuel
      → run_ops board (later_pages board fuel p image) (written p image) ≡ image
  unfolding run_ops run_op later_pages
  pages_all zero p enough = written_all p image (omega (arith, fits))
  pages_all (suc fuel) p enough =
      let rest = pages_all fuel (p + board.page_size) (omega (arith, b.holds_record)) in
      let page : board.program p (take board.page_size (drop p image)) (written p image)
          ≡ written (p + board.page_size) image =
        b.programs p _ (written p image)
        ∙ and_at-written p board.page_size (p + board.page_size) image refl bytes in
      elim (Bool-cases (ltb p board.sector_size)) [
        | inl more ↦
            rw more
              (ap (run_ops board (later_pages board fuel (p + board.page_size) image)) page ∙ rest)
        | inr over ↦ rw over (written_all p image (ground (arith, fits)))
      ]

  radio_program_sector_all :
      (old : List ℕ) → run_ops board (radio_program_sector board image) old ≡ image
  unfolding radio_program_sector run_ops run_op
  radio_program_sector_all old =
      ap (run_ops board (later_pages board board.sector_size 0 image))
        (b.erases old ∙ ap (λ n. replicate n 255) (sym fits) ∙ written_nothing image)
      ∙ pages_all board.sector_size 0 (omega arith)

printable-bytes : (xs : List ℕ) → all_printable xs ≡ true → All (λ x. x < 256) xs
unfolding all_printable
printable-bytes [] h = tt
printable-bytes (x ∷ xs) h = (ground arith, printable-bytes xs (ground arith))

image-bytes :
    (ssid psk : List ℕ)
    → all_printable ssid ≡ true
    → all_printable psk ≡ true
    → All (λ x. x < 256) (image_of ssid psk)
unfolding image_of lens
image-bytes ssid psk hs hp =
    let magic : All (λ x. x < 256) schema_2.magic = ground arith in
    let zeros : All {0, 0} (λ x. x < 256) (0 ∷ 0 ∷ 0 ∷ 0 ∷ []) = ground arith in
    let number = le_bytes-bytes 2 2 in
    let total = le_bytes-bytes 2 (24 + length ssid + length psk) in
    let crc = le_bytes-bytes 4 (build_crc ssid psk) in
    let lengths =
      All-append _ (le_bytes 2 (length ssid) ++ le_bytes 2 (length psk)) (0 ∷ 0 ∷ 0 ∷ 0 ∷ [])
        (All-append _ (le_bytes 2 (length ssid)) (le_bytes 2 (length psk))
          (le_bytes-bytes 2 (length ssid)) (le_bytes-bytes 2 (length psk)))
        zeros in
    let fill = All-replicate (4096 - (24 + length ssid + length psk)) in
    All-append _ schema_2.magic _ magic (
      All-append _ _ _ number (
        All-append _ _ _ total (
          All-append _ _ _ crc (
            All-append _ (lens ssid psk) _ lengths (
              All-append _ _ _ (printable-bytes ssid hs)
                (All-append _ _ _ (printable-bytes psk hp) fill))))))

build2-bytes : (ssid psk image : List ℕ) → build2 ssid psk ≡ some image → All (λ x. x < 256) image
unfolding build2 inputs_ok
build2-bytes ssid psk image h =
    let same : image_of ssid psk ≡ image = ground arith in
    subst (All (λ x. x < 256)) same (image-bytes ssid psk (ground arith) (ground arith))

same_bytes_refl : (xs : List ℕ) → same_bytes xs xs ≡ true
unfolding same_bytes
same_bytes_refl [] = refl
same_bytes_refl (x ∷ xs) = rw ((==_iff x x).1 refl, same_bytes_refl xs) refl

same_string_refl : (xs : List ℕ) → same_string xs xs ≡ true
unfolding same_string
same_string_refl xs = rw ((==_iff (length xs) (length xs)).1 refl, same_bytes_refl xs) refl

confirm_same :
    (c : Config) (image : List ℕ)
    → parse2 image ≡ some c
    → confirm_written c image image ≡ (true, image)
unfolding confirm_written
confirm_same c image parsed =
    rw (same_bytes_refl image, parsed, same_string_refl c.ssid, same_string_refl c.psk) refl

write_same :
    (board : Board) (c : Config) (image old : List ℕ)
    → parse2 image ≡ some c
    → run_ops board (radio_program_sector board image) old ≡ image
    → write_and_verify board old image performed ≡ (true, image)
unfolding write_and_verify
write_same board c image old parsed held =
    rw (parsed, write_and_verify, held) (confirm_same c image parsed)

-- An ssid and a psk that the record takes are provisioned on a working board with sectors of 4096
-- bytes, when `flash_safe_execute` succeeds: the write succeeds, whatever the sector held, and the sector reads as that ssid and psk.
pub provision_lem :
    (board : Board) (ssid psk image old : List ℕ)
    → IsBoard board
    → board.sector_size ≡ 4096
    → build2 ssid psk ≡ some image
    → ((write_and_verify board old image performed).0 ≡ true)
      × (read (write_and_verify board old image performed).1
          ≡ some (record { ssid = ssid; psk = psk; cert = []; key = [] }))
provision_lem board ssid psk image old b size h =
    let parsed = parse2-build2 ssid psk image h in
    let held =
      radio_program_sector_all board b image (length-build2 ssid psk image h ∙ sym size)
        (build2-bytes ssid psk image h) old in
    let done =
      write_same board (record { ssid = ssid; psk = psk; cert = []; key = [] }) image old parsed
        held in
    (ap (λ (p : Bool × List ℕ). p.0) done, ap (λ (p : Bool × List ℕ). read p.1) done ∙ parsed)
