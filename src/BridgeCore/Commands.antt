-- ===== src/BridgeCore/Commands.antt =====
-- Sequences of calls on the core, as its single scheduler makes them.
use picobridge.Prelude.{ℕ, List, [], ◌∷◌, ◌++◌, All}
use picobridge.BridgeCore.Types.{Status, ok, Stroke, Core}
use picobridge.BridgeCore.Stage
use picobridge.BridgeCore.Stage.{Request, bytes_of}
use picobridge.BridgeCore.Control
use picobridge.BridgeCore.Utf8.Encode.{IsByte}

-- A call, with the time at which it is made where the call takes one.
pub data Command : Type 0 where
  stage : Request → ℕ → Command
  confirm : ℕ → ℕ → ℕ → Command
  cancel : ℕ → ℕ → Command
  tick : ℕ → Command
  next : ℕ → Command
  abort : Command

-- What the caller of a command sees of it, and the core that it leaves.
pub record Reply : Type 0 where
  pub status : Status
  pub strokes : List Stroke
  pub core : Core

abbrev silent : Status × Core → Reply
silent (status, core) = record { status = status; strokes = []; core = core }

-- A stroke is typed where `next` returns OK.
abbrev handed : Control.Next → Reply
handed n = record {
  status = n.status;
  strokes = elim n.status [ ok ↦ n.stroke ∷ [] | _ ↦ [] ];
  core = n.core;
}

unfoldable pub exec : Core → Command → Reply
exec c (stage r now_ms) = silent (Stage.stage c r now_ms)
exec c (confirm owner id now_ms) = silent (Control.confirm c owner id now_ms)
exec c (cancel owner id) = silent (Control.cancel c owner id)
exec c (tick now_ms) = silent (Control.tick c now_ms)
exec c (next now_ms) = handed (Control.next c now_ms)
exec c abort = silent (ok, Control.abort c)

-- The core after a sequence of commands.
unfoldable pub run : Core → List Command → Core
run c [] = c
run c (cmd ∷ cmds) = run (exec c cmd).core cmds

-- The strokes that a sequence of commands types.
unfoldable pub strokes_of : Core → List Command → List Stroke
strokes_of c [] = []
strokes_of c (cmd ∷ cmds) = (exec c cmd).strokes ++ strokes_of (exec c cmd).core cmds

-- The input of a stage command is made of bytes.
abbrev pub HasBytes : Command → Type 0
HasBytes (stage r now_ms) = All IsByte (bytes_of r)
HasBytes _ = Unit
