-- ===== src/EntropyFill/Filled.antt =====
-- The loop of firmware/radio/entropy_fill.c ends, and what it fills.
use picobridge.Prelude.{
  ℕ, zero, suc, ◌-◌, ◌≤◌, ◌<◌, ◌≡◌, inl, inr, refl, ap, arith, true, false, Option, none, some,
  List, [], ◌++◌, length, take, length-append, length-take, ltb, Bool-cases,
}
use picobridge.ControllerStore.Memory.{le_bytes}
use picobridge.NoiseIk.Transport.Nonces.{length-le_bytes}
use picobridge.EntropyFill.{Outcome, at_most, drawn, fill_loop, entropy_fill}

module _ {C : Type 0} (word : C → Option ℕ × C) where
  -- What words, drawn one after the other, lead to: filled to the end, each word's bytes behind
  -- those before it and the last cut, or stopped at a word that fails.
  pub data Fills (len : ℕ) : List ℕ → C → Outcome C → Type 0 where
    full :
        (out : List ℕ) (ctx : C)
        → length out ≡ len
        → Fills len out ctx (record { succeeded = true; olen = len; out = out; ctx = ctx })
    failed :
        (out : List ℕ) (ctx ctx' : C)
        → length out < len
        → word ctx ≡ (none, ctx')
        → Fills len out ctx (record { succeeded = false; olen = 0; out = out; ctx = ctx' })
    filled :
        (out : List ℕ) (ctx ctx' : C) (value chunk : ℕ) (o : Outcome C)
        → length out < len
        → word ctx ≡ (some value, ctx')
        → chunk ≡ at_most 8 (len - length out)
        → Fills len (out ++ take chunk (le_bytes 8 value)) ctx' o
        → Fills len out ctx o

  -- An outcome that there is.
  abbrev pub Ends : ℕ → List ℕ → C → Option (Outcome C) → Type 0
  Ends len out ctx r = (o : Outcome C) × (r ≡ some o) × Fills len out ctx o

  length-chunk : (n value : ℕ) → length (take (at_most 8 n) (le_bytes 8 value)) ≡ at_most 8 n
  length-chunk n value =
      length-take (at_most 8 n) (le_bytes 8 value) (ground (arith, length-le_bytes 8 value))

  grown :
      (len value : ℕ) (out : List ℕ)
      → length out < len
      → (length (out ++ take (at_most 8 (len - length out)) (le_bytes 8 value)) ≤ len)
        × (length out < length (out ++ take (at_most 8 (len - length out)) (le_bytes 8 value)))
  grown len value out more =
      let sum = length-append out (take (at_most 8 (len - length out)) (le_bytes 8 value)) in
      let chunk = length-chunk (len - length out) value in
      (ground (arith, sum, chunk), ground (arith, sum, chunk))

  -- The round after a word, where the rest of the loop ends.
  go_on :
      (fuel len : ℕ) (out : List ℕ) (ctx : C)
      → ((next : List ℕ) (ctx' : C)
          → length next ≤ len
          → len - length next < fuel
          → Ends len next ctx' (fill_loop word fuel len next ctx'))
      → len - length out ≤ fuel
      → (p : Option ℕ × C) → word ctx ≡ p
      → length out < len
      → Ends len out ctx (drawn word out (at_most 8 (len - length out)) (fill_loop word fuel len) p)
  go_on fuel len out ctx again enough (none, ctx') e lt = (_, refl, failed out ctx ctx' lt e)
  go_on fuel len out ctx again enough (some value, ctx') e lt =
      let size = grown len value out lt in
      let rest =
        again (out ++ take (at_most 8 (len - length out)) (le_bytes 8 value)) ctx' size.0
          (omega (arith, size.0, size.1)) in
      (
        rest.0,
        rest.1,
        filled out ctx ctx' value (at_most 8 (len - length out)) rest.0 lt e refl rest.2,
      )

  fill_loop-Ends :
      (fuel len : ℕ) (out : List ℕ) (ctx : C)
      → length out ≤ len
      → len - length out < fuel
      → Ends len out ctx (fill_loop word fuel len out ctx)
  unfolding fill_loop
  fill_loop-Ends zero len out ctx fits enough = absurd (omega arith)
  fill_loop-Ends (suc fuel) len out ctx fits enough = elim (Bool-cases (ltb (length out) len)) [
    | inr over ↦
        let at_end : length out ≡ len = ground arith in
        rw over (
          record { succeeded = true; olen = len; out = out; ctx = ctx },
          ap (λ n. some (record { succeeded = true; olen = n; out = out; ctx = ctx })) at_end,
          full out ctx at_end,
        )
    | inl more ↦ rw more (
        go_on fuel len out ctx (fill_loop-Ends fuel len) (omega arith) (word ctx) refl
          (ground arith))
  ]

  -- The loop always ends. It either fills the buffer from words drawn in turn, all of a word but
  -- the last, or stops at the first word that fails and then tells a length of 0.
  pub entropy_fill-Ends : (len : ℕ) (ctx : C) → Ends len [] ctx (entropy_fill word len ctx)
  unfolding entropy_fill
  entropy_fill-Ends len ctx = fill_loop-Ends (suc len) len [] ctx (omega arith) (omega arith)
