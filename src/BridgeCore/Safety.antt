-- ===== src/BridgeCore/Safety.antt =====
-- What no sequence of commands can do.
use picobridge.Prelude.{ℕ, ◌≡◌, ◌≢◌, arith, List, [], ◌∷◌, ◌++◌, All, inl, inr, none}
use picobridge.BridgeCore.Types.{ok, terminate, Core, Ticket}
use picobridge.BridgeCore.Stage
use picobridge.BridgeCore.Stage.{Request, bytes_of, refusal}
use picobridge.BridgeCore.Control
use picobridge.BridgeCore.Commands.{
  Command, stage, confirm, cancel, tick, next, abort, exec, run, HasBytes,
}
use picobridge.BridgeCore.Utf8.Encode.{IsByte}
use picobridge.BridgeCore.Refusal.{IsSpent, IsSpent-is_replay}
use picobridge.BridgeCore.Outcome.{StageOutcome, turned_away, failed, accepted, stage-StageOutcome}
use picobridge.BridgeCore.Invariant.{IsValid}
use picobridge.BridgeCore.Invariant.Ops.{
  IsSpent-last, stage-IsValid, confirm-IsValid, cancel-IsValid, tick-IsValid, next-IsValid,
  abort-IsValid,
}

exec-IsValid : (c : Core) (cmd : Command) → HasBytes cmd → IsValid c → IsValid (exec c cmd).core
unfolding exec
exec-IsValid c (stage r now_ms) hb v = stage-IsValid c r now_ms hb v
exec-IsValid c (confirm owner id now_ms) hb v = confirm-IsValid c owner id now_ms v
exec-IsValid c (cancel owner id) hb v = cancel-IsValid c owner id v
exec-IsValid c (tick now_ms) hb v = tick-IsValid c now_ms v
exec-IsValid c (next now_ms) hb v = next-IsValid c now_ms v
exec-IsValid c abort hb v = abort-IsValid c v

-- Any commands whatever keep the invariant, once it holds: arrays in bounds, strokes wiped as they are handed out,
-- and everything but the ledger wiped whenever no job is in progress.
pub run-IsValid :
    (c : Core) (cmds : List Command) → All HasBytes cmds → IsValid c → IsValid (run c cmds)
unfolding run
run-IsValid c [] hb v = v
run-IsValid c (cmd ∷ cmds) hb v =
    run-IsValid (exec c cmd).core cmds hb.1 (exec-IsValid c cmd hb.0 v)

-- The ledger only grows.
module _ (owner id : ℕ) where
  IsSpent-append : (ts us : List Ticket) → IsSpent owner id ts → IsSpent owner id (ts ++ us)
  IsSpent-append [] us h = absurd h
  IsSpent-append (t ∷ ts) us (inl e) = inl e
  IsSpent-append (t ∷ ts) us (inr h) = inr (IsSpent-append ts us h)

  module _ (c : Core) (h : IsSpent owner id c.replay) where
    stage_keeps :
        (r : Request) (now_ms : ℕ)
        → StageOutcome c r now_ms (Stage.stage c r now_ms)
        → IsSpent owner id (Stage.stage c r now_ms).1.replay
    unfolding terminate
    stage_keeps r now_ms (turned_away busy e) = rw e h
    stage_keeps r now_ms (failed idle ne e) = rw e h
    stage_keeps r now_ms (accepted e s) =
        rw s.is_job (IsSpent-append c.replay (record { owner = r.owner; id = r.id } ∷ []) h)

module _ (c : Core) where
  replay-confirm : (o i now_ms : ℕ) → (Control.confirm c o i now_ms).1.replay ≡ c.replay
  unfolding Control.confirm Control.tick terminate
  replay-confirm o i now_ms = ground arith

  replay-cancel : (o i : ℕ) → (Control.cancel c o i).1.replay ≡ c.replay
  unfolding Control.cancel terminate
  replay-cancel o i = ground arith

  replay-tick : (now_ms : ℕ) → (Control.tick c now_ms).1.replay ≡ c.replay
  unfolding Control.tick terminate
  replay-tick now_ms = ground arith

  replay-next : (now_ms : ℕ) → (Control.next c now_ms).core.replay ≡ c.replay
  unfolding Control.next Control.tick Control.advance terminate
  replay-next now_ms = ground arith

module _ (owner id : ℕ) where
  exec_keeps :
      (c : Core) (cmd : Command)
      → HasBytes cmd
      → IsSpent owner id c.replay
      → IsSpent owner id (exec c cmd).core.replay
  unfolding exec Control.abort terminate
  exec_keeps c (stage r now_ms) hb h =
      stage_keeps owner id c h r now_ms (stage-StageOutcome c r now_ms hb)
  exec_keeps c (confirm o i now_ms) hb h = rw (replay-confirm c o i now_ms) h
  exec_keeps c (cancel o i) hb h = rw (replay-cancel c o i) h
  exec_keeps c (tick now_ms) hb h = rw (replay-tick c now_ms) h
  exec_keeps c (next now_ms) hb h = rw (replay-next c now_ms) h
  exec_keeps c abort hb h = h

  run_keeps :
      (c : Core) (cmds : List Command)
      → All HasBytes cmds
      → IsSpent owner id c.replay
      → IsSpent owner id (run c cmds).replay
  unfolding run
  run_keeps c [] hb h = h
  run_keeps c (cmd ∷ cmds) hb h = run_keeps (exec c cmd).core cmds hb.1 (exec_keeps c cmd hb.0 h)

-- A request whose ticket is spent is not taken up.
spent-refused : (c : Core) (r : Request) → IsSpent r.owner r.id c.replay → refusal c r ≢ none
unfolding refusal
spent-refused c r h e = ground (arith, IsSpent-is_replay r.owner r.id c.replay)

spent-stage-ne-ok :
    (c : Core) (r : Request) (now_ms : ℕ)
    → All IsByte (bytes_of r)
    → IsSpent r.owner r.id c.replay
    → (Stage.stage c r now_ms).0 ≢ ok
spent-stage-ne-ok c r now_ms hb h e = from (stage-StageOutcome c r now_ms hb)
  where
    from : StageOutcome c r now_ms (Stage.stage c r now_ms) → ⊥
    from (turned_away busy same) = cc
    from (failed idle ne same) = ne e
    from (accepted good s) = spent-refused c r h s.passes

-- Each ticket is staged once at most: after a stage command has returned OK, no later stage
-- command with the same owner and id returns OK, whatever commands come between.
pub stage_once :
    (c : Core) (r : Request) (now_ms : ℕ) (cmds : List Command) (r' : Request) (now_ms' : ℕ)
    → All IsByte (bytes_of r)
    → All IsByte (bytes_of r')
    → All HasBytes cmds
    → (Stage.stage c r now_ms).0 ≡ ok
    → r'.owner ≡ r.owner
    → r'.id ≡ r.id
    → (Stage.stage (run (Stage.stage c r now_ms).1 cmds) r' now_ms').0 ≢ ok
stage_once c r now_ms cmds r' now_ms' hb hb' hc e eo ei =
    spent-stage-ne-ok (run staged_core cmds) r' now_ms' hb' (
      rw (eo, ei)
        (run_keeps r.owner r.id staged_core cmds hc (spent (stage-StageOutcome c r now_ms hb))))
  where
    staged_core : Core
    staged_core = (Stage.stage c r now_ms).1

    spent :
        StageOutcome c r now_ms (Stage.stage c r now_ms) → IsSpent r.owner r.id staged_core.replay
    spent (turned_away busy same) = cc
    spent (failed idle ne same) = absurd (ne e)
    spent (accepted good s) = rw s.is_job (IsSpent-last r.owner r.id c.replay)
