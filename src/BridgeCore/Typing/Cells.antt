-- ===== src/BridgeCore/Typing/Cells.antt =====
-- The stroke array as a list of strokes written and cells that are still wiped.
use picobridge.Prelude.{
  ℕ, zero, suc, ◌+◌, ◌-◌, ◌<◌, ◌≡◌, refl, ap, arith, List, [], ◌∷◌, ◌++◌, length, get_or, set,
  replicate, length-append, get_or-append, set-append,
}
use mathlib.Core.List.{append_assoc}
use picobridge.BridgeCore.Types.{max_strokes, Stroke, no_stroke, Core}
use picobridge.BridgeCore.Stage.{put_stroke, next_cell}

-- `out` in front of wiped cells, up to the array's length.
abbrev pub cells : List Stroke → List Stroke
cells out = out ++ replicate (max_strokes - length out) no_stroke

-- The core with exactly these strokes staged.
abbrev pub filled : Core → List Stroke → Core
filled core out = record core { stroke_count = length out; strokes = cells out }

wiped_cells : (n : ℕ) → 0 < n → replicate n no_stroke ≡ no_stroke ∷ replicate (n - 1) no_stroke
unfolding replicate
wiped_cells zero h = elim h [ ]
wiped_cells (suc n) h = ap (λ k. no_stroke ∷ replicate k no_stroke) (omega arith)

module _ (out : List Stroke) (room : length out < max_strokes) where
  -- The cell behind the strokes is wiped.
  pub get_or-cells : get_or (cells out) (length out) no_stroke ≡ no_stroke
  get_or-cells =
      rw (get_or-append out _ no_stroke, wiped_cells (max_strokes - length out) (omega arith)) refl

  set-cells : (s : Stroke) → set (cells out) (length out) s ≡ cells (out ++ s ∷ [])
  set-cells s =
      rw
        (
          wiped_cells (max_strokes - length out) (omega arith),
          set-append out no_stroke s _,
          append_assoc out (s ∷ []) _,
          length-append out (s ∷ []),
        )
        (ap (λ k. out ++ s ∷ replicate k no_stroke) (omega arith))

  -- Writing the cell adds a stroke.
  pub put_stroke-filled :
      (core : Core) (s : Stroke)
      → put_stroke (next_cell (filled core out)) (length out) s ≡ filled core (out ++ s ∷ [])
  put_stroke-filled core s = λ i. record core { stroke_count = count i; strokes = set-cells s i }
    where
      count : length out + 1 ≡ length (out ++ s ∷ [])
      count = omega (arith, length-append out (s ∷ []))
