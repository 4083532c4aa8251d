-- ===== src/BridgeCore/Invariant.antt =====
-- What holds of the core between two calls.
pub mod Cells
pub mod Ops
use picobridge.Prelude.{◌≤◌, ◌<◌, ◌≡◌, true, false, length, take, drop, All}
use picobridge.BridgeCore.Types.{
  max_strokes, max_ttl_ms, replay_capacity, staged, terminate, Stroke, no_stroke, Core,
}
use picobridge.BridgeCore.Stage.{is_busy}
use picobridge.BridgeCore.Refusal.{IsSpent}

abbrev pub IsWiped : Stroke → Type 0
IsWiped s = s ≡ no_stroke

pub record IsValid (c : Core) : Type 0 where
  -- The ledger and the stroke array are in their bounds.
  pub ledger : length c.replay ≤ replay_capacity
  pub cells : length c.strokes ≡ max_strokes
  pub count : c.stroke_count ≤ max_strokes
  pub cursor_in : c.cursor ≤ c.stroke_count
  -- No stroke that was handed out, and none behind the staged ones, is left in memory.
  pub consumed : All IsWiped (take c.cursor c.strokes)
  pub unused : All IsWiped (drop c.stroke_count c.strokes)
  -- With no job in progress the whole job region is wiped.
  pub idle : is_busy c.state ≡ false → c ≡ terminate c c.state
  -- A job in progress has spent its ticket, and its life is bounded.
  pub spent : is_busy c.state ≡ true → IsSpent c.owner c.id c.replay
  pub lives : is_busy c.state ≡ true → 0 < c.ttl_ms
  pub short_life : is_busy c.state ≡ true → c.ttl_ms ≤ max_ttl_ms
  pub untouched : c.state ≡ staged → c.cursor ≡ 0
