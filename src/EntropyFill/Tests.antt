-- ===== src/EntropyFill/Tests.antt =====
-- A buffer filled from a generator that counts.
use picobridge.Prelude.{ℕ, ◌+◌, Option, some, []}
use picobridge.EntropyFill.{entropy_fill}
use picobridge.EntropyFill.Filled.{Ends, entropy_fill-Ends}

abbrev counting : ℕ → Option ℕ × ℕ
counting n = (some n, n + 1)

entropy_fill-Ends_example : Ends counting 9 [] 1 (entropy_fill counting 9 1)
entropy_fill-Ends_example = entropy_fill-Ends counting 9 1
