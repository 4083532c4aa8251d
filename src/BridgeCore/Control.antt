-- ===== src/BridgeCore/Control.antt =====
-- The other operations of firmware/core/bridge_core.c: abort, cancel, tick, confirm, next.
-- NULL tests are left out, as in BridgeCore/Stage.antt.
use picobridge.Prelude.{
  ℕ, ◌+◌, Bool, true, false, not, ◌&&◌, get_or, leb, ◌==◌, if◌then◌else◌, sub32,
}
use picobridge.BridgeCore.Types.{
  Status, ok, done, err_state, err_owner, err_id, err_expired, State, staged, executing, completed,
  cancelled, expired, Stroke, no_stroke, Core, terminate,
}
use picobridge.BridgeCore.Stage.{is_busy, put_stroke}

abbrev pub is_staged : State → Bool
is_staged staged = true
is_staged _ = false

abbrev pub is_executing : State → Bool
is_executing executing = true
is_executing _ = false

unfoldable pub abort : Core → Core
unfolding terminate
abort core = terminate core cancelled

unfoldable pub cancel : Core → ℕ → ℕ → Status × Core
unfolding terminate is_busy
cancel core owner id =
    if not (is_busy core.state)
    then (err_state, core)
    else if not (owner == core.owner)
    then (err_owner, core)
    else if not (id == core.id)
    then (err_id, core)
    else (ok, terminate core cancelled)

-- The time since staging, mod 2 ^ 32, has reached the time to live.
abbrev pub is_due : Core → ℕ → Bool
is_due core now_ms = leb core.ttl_ms (sub32 now_ms core.staged_at_ms)

unfoldable pub tick : Core → ℕ → Status × Core
unfolding terminate
tick core now_ms =
    if is_staged core.state && is_due core now_ms
    then (err_expired, terminate core expired)
    else (ok, core)

-- Go on unless the tick before has expired the job.
abbrev pub unless_expired {ℓ} : {A : Type ℓ} → Status × Core → A → A → A
unless_expired (err_expired, core) stopped on = stopped
unless_expired (status, core) stopped on = on

unfoldable pub confirm : Core → ℕ → ℕ → ℕ → Status × Core
unfolding tick
confirm core owner id now_ms =
    if not (is_staged core.state)
    then (err_state, core)
    else if not (owner == core.owner)
    then (err_owner, core)
    else if not (id == core.id)
    then (err_id, core)
    else let ticked = tick core now_ms in
      unless_expired ticked (err_expired, ticked.1) (ok, record ticked.1 { state = executing })

-- What a call of `next` leaves: its status, `*stroke`, and the core.
pub record Next : Type 0 where
  pub status : Status
  pub stroke : Stroke
  pub core : Core

abbrev pub without_stroke : Status → Core → Next
without_stroke status core = record { status = status; stroke = no_stroke; core = core }

-- `next` behind its tick: hand out the stroke at the cursor and wipe its cell.
unfoldable pub advance : Core → Next
unfolding terminate
advance core =
    if not (is_executing core.state)
    then without_stroke err_state core
    else if core.cursor == core.stroke_count
    then without_stroke done (terminate core completed)
    else record {
      status = ok;
      stroke = get_or core.strokes core.cursor no_stroke;
      core = record (put_stroke core core.cursor no_stroke) { cursor = core.cursor + 1 };
    }

unfoldable pub next : Core → ℕ → Next
unfolding tick advance
next core now_ms =
    let ticked = tick core now_ms in
    unless_expired ticked (without_stroke err_expired ticked.1) (advance ticked.1)
