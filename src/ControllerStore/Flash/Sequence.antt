-- ===== src/ControllerStore/Flash/Sequence.antt =====
-- The states that a sector goes through while `program_sector` of
-- firmware/controller_store_flash.c runs.
use picobridge.Prelude.{
  ℕ, zero, suc, ◌+◌, ◌≤◌, ◌<◌, ◌≡◌, ◌⊎◌, inl, inr, refl, sym, ap, ◌∙◌, arith, List, [], ◌∷◌, ◌++◌,
  length, take, drop, replicate, All, ltb, Bool-cases,
}
use picobridge.ControllerStore.Flash.{
  Board, FlashOp, program_page, blank, commit_offset, run_op, run_ops, later_pages, preparing,
  program_sector,
}
use picobridge.ControllerStore.Flash.Program.{
  and_at, written, written_nothing, written_all, and_at-written, take-blank, drop-blank,
  length-blank, All-blank, and_at-blank,
}

-- A board that works as its manual says: a page holds a record, erasing sets every bit, and
-- programming clears bits.
pub record IsBoard (board : Board) : Type 0 where
  pub holds_record : 188 ≤ board.page_size
  pub holds_page : board.page_size ≤ board.sector_size
  pub erases : (bytes : List ℕ) → board.erase bytes ≡ replicate board.sector_size 255
  pub programs :
      (offset : ℕ) (page bytes : List ℕ)
      → board.program offset page bytes ≡ and_at offset page bytes

run_ops-append :
    (board : Board) (xs ys : List FlashOp) (bytes : List ℕ)
    → run_ops board (xs ++ ys) bytes ≡ run_ops board ys (run_ops board xs bytes)
unfolding run_ops
run_ops-append board [] ys bytes = refl
run_ops-append board (x ∷ xs) ys bytes = run_ops-append board xs ys (run_op board x bytes)

take-snoc {ℓ} :
    {A : Type ℓ} (k : ℕ) (xs : List A) (y : A)
    → ((j : ℕ) × (take k (xs ++ y ∷ []) ≡ take j xs)) ⊎ (take k (xs ++ y ∷ []) ≡ xs ++ y ∷ [])
take-snoc zero xs y = inl (0, refl)
take-snoc (suc zero) [] y = inr refl
take-snoc (suc (suc k)) [] y = inr refl
take-snoc (suc k) (x ∷ xs) y = elim (take-snoc k xs y) [
  | inl (j, e) ↦ inl (suc j, ap (λ l. x ∷ l) e)
  | inr e ↦ inr (ap (λ l. x ∷ l) e)
]

module _ (board : Board) (b : IsBoard board) (sector : List ℕ)
    (fits : length sector ≡ board.sector_size) (bytes : All (λ x. x < 256) sector) where
  -- What the sector holds before the last operation.
  abbrev pub image : List ℕ
  image = blank commit_offset 4 sector

  image_fits : length image ≡ board.sector_size
  image_fits = length-blank commit_offset 4 sector ∙ fits

  later_page :
      (p : ℕ)
      → 188 ≤ p
      → board.program p (take board.page_size (drop p sector)) (written p image)
        ≡ written (p + board.page_size) image
  later_page p h =
      b.programs p _ (written p image)
      ∙ ap (λ l. and_at p (take board.page_size l) (written p image))
          (sym (drop-blank p commit_offset 4 sector h))
      ∙ and_at-written p board.page_size (p + board.page_size) image refl
          (All-blank commit_offset 4 sector bytes)

  -- Some part of the image is written after any number of the later pages.
  later_pages_cut :
      (fuel p k : ℕ)
      → 188 ≤ p
      → (q : ℕ) × (run_ops board (take k (later_pages board fuel p sector)) (written p image)
          ≡ written q image)
  unfolding run_ops run_op later_pages
  later_pages_cut fuel p zero h = (p, refl)
  later_pages_cut zero p (suc k) h = (p, refl)
  later_pages_cut (suc fuel) p (suc k) h =
      let rest = later_pages_cut fuel (p + board.page_size) k (omega arith) in
      elim (Bool-cases (ltb p board.sector_size)) [
        | inl more ↦ (rest.0, rw more (rw (later_page p h) rest.1))
        | inr over ↦ (p, rw over refl)
      ]

  -- All of it is, after all of them.
  later_pages_all :
      (fuel p : ℕ)
      → 188 ≤ p
      → board.sector_size ≤ p + fuel
      → run_ops board (later_pages board fuel p sector) (written p image) ≡ image
  unfolding run_ops run_op later_pages
  later_pages_all zero p h enough = written_all p image (omega (arith, image_fits))
  later_pages_all (suc fuel) p h enough =
      let rest =
        later_pages_all fuel (p + board.page_size) (omega arith) (omega (arith, b.holds_record)) in
      elim (Bool-cases (ltb p board.sector_size)) [
        | inl more ↦ rw more (
            ap (λ l. run_ops board (later_pages board fuel (p + board.page_size) sector) l)
              (later_page p h)
            ∙ rest)
        | inr over ↦ rw over (written_all p image (ground (arith, image_fits)))
      ]

  erased : (old : List ℕ) → board.erase old ≡ written 0 image
  erased old = b.erases old ∙ ap (λ n. replicate n 255) (sym image_fits) ∙ written_nothing image

  first_page :
      board.program 0 (blank commit_offset 4 (take board.page_size sector)) (written 0 image)
      ≡ written board.page_size image
  first_page =
      b.programs 0 _ (written 0 image)
      ∙ ap (λ l. and_at 0 l (written 0 image)) (take-blank board.page_size commit_offset 4 sector)
      ∙ and_at-written 0 board.page_size board.page_size image (omega arith)
          (All-blank commit_offset 4 sector bytes)

  preparing_cut :
      (k : ℕ) (old : List ℕ)
      → (run_ops board (take k (preparing board sector)) old ≡ old)
        ⊎ ((q : ℕ) × (run_ops board (take k (preparing board sector)) old ≡ written q image))
  unfolding run_ops run_op preparing
  preparing_cut zero old = inl refl
  preparing_cut (suc zero) old = inr (0, erased old)
  preparing_cut (suc (suc k)) old =
      let rest = later_pages_cut board.sector_size board.page_size k b.holds_record in
      inr (rest.0, rw (erased old, first_page) rest.1)

  abbrev first : List ℕ
  first = blank commit_offset 4 (take board.page_size sector)

  abbrev later : List FlashOp
  later = later_pages board board.sector_size board.page_size sector

  preparing_all : (old : List ℕ) → run_ops board (preparing board sector) old ≡ image
  unfolding run_ops run_op preparing
  preparing_all old =
      ap (λ l. run_ops board later (board.program 0 first l)) (erased old)
      ∙ ap (λ l. run_ops board later l) first_page
      ∙ (later_pages_all board.sector_size board.page_size b.holds_record (omega arith))

  pub program_sector_all : (old : List ℕ) → run_ops board (program_sector board sector) old ≡ sector
  unfolding program_sector run_ops run_op
  program_sector_all old =
      run_ops-append board (preparing board sector) _ old
      ∙ ap (λ l. board.program 0 (take board.page_size sector) l) (preparing_all old)
      ∙ b.programs 0 _ image
      ∙ and_at-blank board.page_size commit_offset 4 sector (omega (arith, b.holds_record)) bytes

  -- Cut off anywhere, the sector is as it was, or without a commit marker, or complete.
  pub program_sector_cut :
      (k : ℕ) (old : List ℕ)
      → (run_ops board (take k (program_sector board sector)) old ≡ old)
        ⊎ ((q : ℕ) × (run_ops board (take k (program_sector board sector)) old ≡ written q image))
        ⊎ (run_ops board (take k (program_sector board sector)) old ≡ sector)
  unfolding program_sector
  program_sector_cut k old =
      elim (take-snoc k (preparing board sector) (program_page 0 (take board.page_size sector))) [
        | inl (j, e) ↦ elim (preparing_cut j old) [
          | inl same ↦ inl (rw e same)
          | inr (q, w) ↦ inr (inl (q, rw e w))
        ]
        | inr e ↦ inr (inr (rw e (program_sector_all old)))
      ]
