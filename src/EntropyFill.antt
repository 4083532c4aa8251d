-- ===== src/EntropyFill.antt =====
-- The entropy source's adapter: firmware/radio/entropy_fill.c. The generator of words is a parameter
-- with a state; a call of it that fails is `none`.
pub mod Filled
mod Tests
use picobridge.Prelude.{
  ℕ, zero, suc, ◌-◌, Bool, true, false, Option, none, some, List, [], ◌++◌, length, take, ltb,
  if◌then◌else◌,
}
use picobridge.ControllerStore.Memory.{le_bytes}

-- What a call leaves: whether it has succeeded, `*olen`, the bytes written to `out`, and the
-- generator's state.
pub record Outcome (C : Type 0) : Type 0 where
  pub succeeded : Bool
  pub olen : ℕ
  pub out : List ℕ
  pub ctx : C

abbrev pub at_most : ℕ → ℕ → ℕ
at_most bound n = if ltb bound n then bound else n

module _ {C : Type 0} (word : C → Option ℕ × C) where
  -- A word that has been drawn: its first bytes in memory are written and the loop goes on, or the
  -- call fails.
  abbrev pub drawn :
      List ℕ → ℕ → (List ℕ → C → Option (Outcome C)) → Option ℕ × C → Option (Outcome C)
  drawn out chunk continue (none, ctx) =
      some (record { succeeded = false; olen = 0; out = out; ctx = ctx })
  drawn out chunk continue (some value, ctx) = continue (out ++ take chunk (le_bytes 8 value)) ctx

  -- The loop; `filled` is the length of `out`. Without fuel there is no outcome.
  unfoldable pub fill_loop : ℕ → ℕ → List ℕ → C → Option (Outcome C)
  fill_loop zero len out ctx = none
  fill_loop (suc fuel) len out ctx =
      if ltb (length out) len
      then drawn out (at_most 8 (len - length out)) (fill_loop fuel len) (word ctx)
      else some (record { succeeded = true; olen = length out; out = out; ctx = ctx })

  unfoldable pub entropy_fill : ℕ → C → Option (Outcome C)
  entropy_fill len ctx = fill_loop (suc len) len [] ctx
