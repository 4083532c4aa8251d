-- ===== src/BridgeCore/Expiry.antt =====
-- The time to live of a staged text in firmware/core/bridge_core.c, over sequences of calls.
use picobridge.Prelude.{ℕ, ◌≤◌, ◌≡◌, ◌≢◌, ◌⊎◌, inl, inr, refl, sym, arith, List, [], ◌∷◌, All}
use mathlib.Core.Path.{subst}
use picobridge.BridgeCore.Types.{staged, executing, terminate, Core}
use picobridge.BridgeCore.Control
use picobridge.BridgeCore.Commands.{
  Command, stage, confirm, cancel, tick, next, abort, exec, run, strokes_of,
}
use picobridge.BridgeCore.Confirm.{elapsed}

-- A command that stages nothing, and that is called when the job's time has passed.
abbrev pub IsLate : Core → Command → Type 0
IsLate c (stage r now_ms) = ⊥
IsLate c (confirm owner id now_ms) = c.ttl_ms ≤ elapsed c now_ms
IsLate c (tick now_ms) = c.ttl_ms ≤ elapsed c now_ms
IsLate c (next now_ms) = c.ttl_ms ≤ elapsed c now_ms
IsLate c (cancel owner id) = Unit
IsLate c abort = Unit

-- No job is staged or executing.
abbrev IsOver : Core → Type 0
IsOver c = (c.state ≢ staged) × (c.state ≢ executing)

IsOver-cancel : (c : Core) (owner id : ℕ) → IsOver c → IsOver (Control.cancel c owner id).1
unfolding Control.cancel terminate
IsOver-cancel c owner id v = (ground arith, ground arith)

IsOver-exec :
    (c job : Core) (cmd : Command)
    → IsLate job cmd
    → IsOver c
    → ((exec c cmd).strokes ≡ []) × IsOver (exec c cmd).core
unfolding exec Control.confirm Control.tick Control.next Control.advance Control.abort terminate
IsOver-exec c job (stage r now_ms) late v = absurd late
IsOver-exec c job (confirm owner id now_ms) late v = (refl, (ground arith, ground arith))
IsOver-exec c job (cancel owner id) late v = (refl, IsOver-cancel c owner id v)
IsOver-exec c job (tick now_ms) late v = (refl, (ground arith, ground arith))
IsOver-exec c job (next now_ms) late v = (ground arith, (ground arith, ground arith))
IsOver-exec c job abort late v = (refl, (λ e. cc, λ e. cc))

over-silent :
    (c job : Core) (cmds : List Command)
    → All (IsLate job) cmds
    → IsOver c
    → (strokes_of c cmds ≡ []) × ((run c cmds).state ≢ executing)
unfolding strokes_of run
over-silent c job [] late v = (refl, v.1)
over-silent c job (cmd ∷ cmds) late v =
    let one = IsOver-exec c job cmd late.0 v in
    let rest = over-silent (exec c cmd).core job cmds late.1 one.1 in
    (rw (one.0, rest.0) refl, rest.1)

-- A late command types nothing, and leaves the job staged or over.
module _ (c : Core) (waits : c.state ≡ staged) where
  late-cancel :
      (owner id : ℕ) → ((Control.cancel c owner id).1 ≡ c) ⊎ IsOver (Control.cancel c owner id).1
  unfolding Control.cancel terminate
  late-cancel owner id = ground arith

  late-confirm :
      (owner id now_ms : ℕ)
      → c.ttl_ms ≤ elapsed c now_ms
      → ((Control.confirm c owner id now_ms).1 ≡ c) ⊎ IsOver (Control.confirm c owner id now_ms).1
  unfolding Control.confirm Control.tick terminate
  late-confirm owner id now_ms late = ground arith

  late-tick : (now_ms : ℕ) → c.ttl_ms ≤ elapsed c now_ms → IsOver (Control.tick c now_ms).1
  unfolding Control.tick terminate
  late-tick now_ms late = ground arith

  late-next :
      (now_ms : ℕ)
      → c.ttl_ms ≤ elapsed c now_ms
      → ((exec c (next now_ms)).strokes ≡ []) × IsOver (exec c (next now_ms)).core
  unfolding exec Control.next Control.tick terminate
  late-next now_ms late = ground arith

  late-exec :
      (cmd : Command)
      → IsLate c cmd
      → ((exec c cmd).strokes ≡ []) × (((exec c cmd).core ≡ c) ⊎ IsOver (exec c cmd).core)
  unfolding exec Control.abort terminate
  late-exec (stage r now_ms) late = absurd late
  late-exec (confirm owner id now_ms) late = (refl, late-confirm owner id now_ms late)
  late-exec (cancel owner id) late = (refl, late-cancel owner id)
  late-exec (tick now_ms) late = (refl, inr (late-tick now_ms late))
  late-exec (next now_ms) late =
      let n = late-next now_ms late in (unfold exec in n.0, inr (unfold exec in n.1))
  late-exec abort late = (refl, inr (λ e. cc, λ e. cc))

-- A staged text whose time to live has passed is never typed: whatever confirmations, requests for
-- strokes, ticks and cancellations come at times when the 32-bit clock shows it as passed, with no
-- new stage command among them, no stroke is handed out and the core is not left executing.
pub never_late :
    (c : Core) (cmds : List Command)
    → c.state ≡ staged
    → All (IsLate c) cmds
    → (strokes_of c cmds ≡ []) × ((run c cmds).state ≢ executing)
unfolding strokes_of run
never_late c [] waits late = (refl, λ e. cc)
never_late c (cmd ∷ cmds) waits late =
    let one = late-exec c waits cmd late.0 in
    let rest =
      elim one.1
        as (λ x.
          (strokes_of (exec c cmd).core cmds ≡ [])
          × ((run (exec c cmd).core cmds).state ≢ executing)) [
            | inl same ↦
                subst (λ d. (strokes_of d cmds ≡ []) × ((run d cmds).state ≢ executing)) (sym same)
                  (never_late c cmds waits late.1)
            | inr over ↦ over-silent (exec c cmd).core c cmds late.1 over
          ] in
    (rw (one.0, rest.0) refl, rest.1)
