-- ===== src/BridgeCore/Stage.antt =====
-- `bridge_core_init` and `bridge_core_stage` of firmware/core/bridge_core.c. A function that
-- updates `*core` returns its status and the new core. The NULL test of `core` is left out: a
-- model's core is there.
use picobridge.Prelude.{
  ℕ, zero, suc, ◌+◌, Bool, true, false, not, ◌&&◌, ◌||◌, Option, none, some, List, [], ◌∷◌, ◌++◌,
  length, get_or, set, take, replicate, ltb, ◌==◌, if◌then◌else◌, bit_and,
}
use picobridge.BridgeCore.Types.{
  max_input_bytes, max_strokes, max_ttl_ms, replay_capacity, flag_allow_lf, flag_allow_tab,
  layout_us, layout_de, mode_password, mode_text, Status, ok, err_argument, err_busy, err_limit,
  err_policy, err_replay, State, empty, staged, executing, rejected, Stroke, no_stroke, Ticket,
  Core, terminate, has_flag,
}
use picobridge.BridgeCore.Utf8.{decode_utf8, Decoded}
use picobridge.BridgeCore.Keymap.{map_ascii, map_de}

-- `bridge_core_init` wipes the ledger too.
unfoldable pub init : Core
init = record {
  replay = [];
  state = empty;
  owner = 0;
  id = 0;
  staged_at_ms = 0;
  ttl_ms = 0;
  layout = 0;
  mode = 0;
  flags = 0;
  stroke_count = 0;
  cursor = 0;
  strokes = replicate max_strokes no_stroke;
}

unfoldable pub reject : Core → Status → Status × Core
unfolding terminate
reject core status = (status, terminate core rejected)

-- The parameters of a stage command that the loop reads.
pub record Options : Type 0 where
  pub layout : ℕ
  pub mode : ℕ
  pub flags : ℕ

abbrev pub allows_lf : Options → Bool
allows_lf o = o.mode == mode_text && has_flag o.flags flag_allow_lf

abbrev pub allows_tab : Options → Bool
allows_tab o = o.mode == mode_text && has_flag o.flags flag_allow_tab

-- One round of the loop: go on behind the bytes read, or stop with an error.
pub data Turn : Type 0 where
  go : Core → List ℕ → Turn
  stop : Status → Turn

-- A write through `stroke = &core->strokes[i]`.
abbrev pub put_stroke : Core → ℕ → Stroke → Core
put_stroke core i stroke = record core { strokes = set core.strokes i stroke }

-- `core->strokes[core->stroke_count++]` hands out a cell.
abbrev pub next_cell : Core → Core
next_cell core = record core { stroke_count = core.stroke_count + 1 }

-- A dead key is followed by a space.
abbrev pub is_dead : Options → ℕ → Bool
is_dead o cp = o.layout == layout_de && (cp == b'^' || cp == b'`' || cp == b'~' || cp == 0xb4)

unfoldable pub add_dead_space : Options → ℕ → Core → Core
add_dead_space o cp core =
    if is_dead o cp
    then (let i = core.stroke_count in
        put_stroke (next_cell core) i (record (get_or core.strokes i no_stroke) { usage = 44 }))
    else core

unfoldable pub map_key : Options → ℕ → Stroke → Status × Stroke
map_key o cp stroke = if o.layout == layout_de then map_de cp stroke else map_ascii cp stroke

-- The round from the mapped key on.
unfoldable pub store_key : Options → ℕ → Core → ℕ → List ℕ → Status × Stroke → Turn
store_key o cp core i rest (ok, stroke) = go (add_dead_space o cp (put_stroke core i stroke)) rest
store_key o cp core i rest (status, stroke) = stop status

-- The round from the code point on; `rest` are the bytes behind it.
unfoldable pub stage_char : Options → Core → ℕ → List ℕ → Turn
stage_char o core0 cp rest =
    let i = core0.stroke_count in
    let core = next_cell core0 in
    let stroke = get_or core0.strokes i no_stroke in
    if ltb cp 32 || cp == 127
    then (if (cp == b'\n' && allows_lf o) || (cp == b'\t' && allows_tab o)
        then go (put_stroke core i (record stroke { usage = if cp == b'\n' then 0x28 else 0x2b }))
            rest
        else stop err_policy)
    else store_key o cp core i rest (map_key o cp stroke)

abbrev pub starts_with_lf : List ℕ → Bool
starts_with_lf [] = false
starts_with_lf (b ∷ bs) = b == b'\n'

abbrev pub tail_bytes : List ℕ → List ℕ
tail_bytes [] = []
tail_bytes (b ∷ bs) = bs

-- CR LF is taken as one LF where LF is allowed.
unfoldable pub stage_decoded : Options → Core → Decoded → Turn
stage_decoded o core d = elim d.status [
  | ok ↦
      if d.cp == b'\r' && allows_lf o && starts_with_lf d.rest
      then stage_char o core b'\n' (tail_bytes d.rest)
      else stage_char o core d.cp d.rest
  | other ↦ stop other
]

-- `while (offset < length)`. Every round reads a byte at least, so fuel for the number of bytes
-- is enough.
unfoldable pub stage_loop : ℕ → Options → List ℕ → Core → Status × Core
stage_loop zero o bytes core = (ok, core)
stage_loop (suc fuel) o [] core = (ok, core)
stage_loop (suc fuel) o (lead ∷ bytes) core = elim (stage_decoded o core (decode_utf8 lead bytes)) [
  | go core' rest ↦ stage_loop fuel o rest core'
  | stop status ↦ reject core status
]

-- The loop over the ledger.
unfoldable pub is_replay : List Ticket → ℕ → ℕ → Bool
is_replay [] owner id = false
is_replay (t ∷ ts) owner id = (t.owner == owner && t.id == id) || is_replay ts owner id

-- What follows the loop: the ticket is spent, and the job is staged.
unfoldable pub commit_stage : ℕ → ℕ → Status × Core → Status × Core
commit_stage owner id (ok, core) = (
  ok,
  record core { replay = core.replay ++ record { owner = owner; id = id } ∷ []; state = staged },
)
commit_stage owner id (status, core) = (status, core)

-- The arguments of a stage command. `utf8` is `none` for a NULL pointer, and otherwise the bytes
-- from the pointer on, `length` of them at least.
pub record Request : Type 0 where
  pub owner : ℕ
  pub id : ℕ
  pub options : Options
  pub utf8 : Option (List ℕ)
  pub length : ℕ
  pub ttl_ms : ℕ

abbrev pub is_null : Option (List ℕ) → Bool
is_null none = true
is_null (some bytes) = false

abbrev pub bytes_of : Request → List ℕ
bytes_of r = elim r.utf8 [ none ↦ [] | some bytes ↦ take r.length bytes ]

unfoldable pub bad_argument : Request → Bool
bad_argument r =
    is_null r.utf8
    || r.owner == 0
    || r.id == 0
    || (not (r.options.layout == layout_us) && not (r.options.layout == layout_de))
    || (not (r.options.mode == mode_password) && not (r.options.mode == mode_text))
    || r.ttl_ms == 0
    || ltb max_ttl_ms r.ttl_ms

-- `~(LF | TAB)` of a flags byte is the mask 0xfc.
unfoldable pub bad_policy : Options → Bool
bad_policy o = not (bit_and o.flags 0xfc == 0) || (o.mode == mode_password && not (o.flags == 0))

-- The tests before the loop, in the source's order.
unfoldable pub refusal : Core → Request → Option Status
refusal core r =
    if r.length == 0 || ltb max_input_bytes r.length
    then some err_limit
    else if bad_argument r
    then some err_argument
    else if bad_policy r.options
    then some err_policy
    else if is_replay core.replay r.owner r.id
    then some err_replay
    else if length core.replay == replay_capacity
    then some err_limit
    else none

-- The job's parameters, written after the tests.
abbrev pub accept : Core → Request → ℕ → Core
accept core r now_ms = record core {
  owner = r.owner;
  id = r.id;
  staged_at_ms = now_ms;
  ttl_ms = r.ttl_ms;
  layout = r.options.layout;
  mode = r.options.mode;
  flags = r.options.flags;
}

unfoldable pub is_busy : State → Bool
is_busy staged = true
is_busy executing = true
is_busy _ = false

unfoldable pub run_stage : Core → Request → ℕ → Status × Core
run_stage core r now_ms = elim (refusal core r) [
  | some status ↦ reject core status
  | none ↦
      let bytes = bytes_of r in
      commit_stage r.owner r.id (stage_loop (length bytes) r.options bytes (accept core r now_ms))
]

unfoldable pub stage : Core → Request → ℕ → Status × Core
stage core r now_ms =
    if is_busy core.state then (err_busy, core) else run_stage (terminate core empty) r now_ms
