-- ===== src/BridgeCore/Confirm.antt =====
-- `bridge_core_confirm` and the time to live: what lets a staged text be typed.
use picobridge.Prelude.{ℕ, ◌<◌, ◌≡◌, ◌≢◌, ◌↔◌, refl, arith, List, [], ◌∷◌, All, sub32}
use picobridge.BridgeCore.Types.{ok, staged, executing, terminate, Core}
use picobridge.BridgeCore.Stage
use picobridge.BridgeCore.Control
use picobridge.BridgeCore.Commands.{
  Command, stage, confirm, cancel, tick, next, abort, exec, strokes_of, HasBytes,
}
use picobridge.BridgeCore.Outcome.{StageOutcome, turned_away, failed, accepted, stage-StageOutcome}

-- The time since staging, as the 32-bit clock measures it.
abbrev pub elapsed : Core → ℕ → ℕ
elapsed c now_ms = sub32 now_ms c.staged_at_ms

-- A confirmation succeeds exactly when a job is staged, the owner and the id are the job's, and
-- its time to live has not passed. It then changes nothing but the state, to EXECUTING.
pub confirm-ok_iff :
    (c : Core) (owner id now_ms : ℕ)
    → (((Control.confirm c owner id now_ms).0 ≡ ok)
        ↔ ((c.state ≡ staged) × (owner ≡ c.owner) × (id ≡ c.id) × (elapsed c now_ms < c.ttl_ms)))
      × ((Control.confirm c owner id now_ms).0 ≡ ok
          → (Control.confirm c owner id now_ms).1 ≡ record c { state = executing })
unfolding Control.confirm Control.tick
confirm-ok_iff c owner id now_ms = ((to, from), effect)
  where
    to :
        (Control.confirm c owner id now_ms).0 ≡ ok
        → (c.state ≡ staged) × (owner ≡ c.owner) × (id ≡ c.id) × (elapsed c now_ms < c.ttl_ms)
    to h = ground arith

    from :
        (c.state ≡ staged) × (owner ≡ c.owner) × (id ≡ c.id) × (elapsed c now_ms < c.ttl_ms)
        → (Control.confirm c owner id now_ms).0 ≡ ok
    from h = ground arith

    effect :
        (Control.confirm c owner id now_ms).0 ≡ ok
        → (Control.confirm c owner id now_ms).1 ≡ record c { state = executing }
    effect h = ground arith

abbrev pub NoConfirm : Command → Type 0
NoConfirm (confirm owner id now_ms) = ⊥
NoConfirm _ = Unit

-- A command types nothing and starts nothing.
record IsQuiet (c : Core) (cmd : Command) : Type 0 where
  nothing : (exec c cmd).strokes ≡ []
  waiting : (exec c cmd).core.state ≢ executing

stage_waits :
    (c : Core) (r : Stage.Request) (now_ms : ℕ)
    → c.state ≢ executing
    → StageOutcome c r now_ms (Stage.stage c r now_ms)
    → (Stage.stage c r now_ms).1.state ≢ executing
unfolding terminate
stage_waits c r now_ms ne (turned_away busy same) = rw same ne
stage_waits c r now_ms ne (failed idle bad same) = rw same (λ e. cc)
stage_waits c r now_ms ne (accepted good s) = rw s.is_job (λ e. cc)

module _ (c : Core) (ne : c.state ≢ executing) where
  cancel_waits : (owner id : ℕ) → (Control.cancel c owner id).1.state ≢ executing
  unfolding Control.cancel terminate
  cancel_waits owner id = ground arith

  tick_waits : (now_ms : ℕ) → (Control.tick c now_ms).1.state ≢ executing
  unfolding Control.tick terminate
  tick_waits now_ms = ground arith

  next_waits :
      (now_ms : ℕ)
      → ((Control.next c now_ms).status ≢ ok) × ((Control.next c now_ms).core.state ≢ executing)
  unfolding Control.next Control.tick Control.advance terminate
  next_waits now_ms = ground arith

  exec-IsQuiet : (cmd : Command) → HasBytes cmd → NoConfirm cmd → IsQuiet c cmd
  unfolding exec Control.abort terminate
  exec-IsQuiet (stage r now_ms) hb no_confirm = record {
    nothing = refl;
    waiting = stage_waits c r now_ms ne (stage-StageOutcome c r now_ms hb);
  }
  exec-IsQuiet (confirm owner id now_ms) hb no_confirm = absurd no_confirm
  exec-IsQuiet (cancel owner id) hb no_confirm = record {
    nothing = refl;
    waiting = cancel_waits owner id;
  }
  exec-IsQuiet (tick now_ms) hb no_confirm = record { nothing = refl; waiting = tick_waits now_ms }
  exec-IsQuiet (next now_ms) hb no_confirm = record {
    nothing = ground (arith, next_waits now_ms);
    waiting = (next_waits now_ms).1;
  }
  exec-IsQuiet abort hb no_confirm = record { nothing = refl; waiting = λ e. cc }

-- Nothing is typed without a confirmation: from a core that is not executing, commands with no
-- confirmation among them type no stroke, whatever they stage.
pub no_strokes_unconfirmed :
    (c : Core) (cmds : List Command)
    → All HasBytes cmds
    → All NoConfirm cmds
    → c.state ≢ executing
    → strokes_of c cmds ≡ []
unfolding strokes_of
no_strokes_unconfirmed c [] hb no_confirm ne = refl
no_strokes_unconfirmed c (cmd ∷ cmds) hb no_confirm ne =
    let quiet = exec-IsQuiet c ne cmd hb.0 no_confirm.0 in
    rw
      (quiet.nothing, no_strokes_unconfirmed (exec c cmd).core cmds hb.1 no_confirm.1 quiet.waiting)
      refl
