-- ===== src/BridgeCore/Invariant/Ops.antt =====
-- Every operation keeps the invariant.
use picobridge.Prelude.{
  ℕ, ◌+◌, ◌-◌, ◌≤◌, ◌<◌, ◌≡◌, ◌≢◌, refl, ap, ◌∙◌, arith, List, [], ◌∷◌, ◌++◌, length, replicate,
  All, length-append, length-replicate, length-set, true, false, inl, inr, drop-append, none,
}
use native.Mathlib.Numerals.{add-one}
use picobridge.BridgeCore.Types.{
  max_strokes, max_ttl_ms, replay_capacity, Ticket, State, staged, executing, rejected, cancelled,
  expired, completed, terminate, no_stroke, Core,
}
use picobridge.BridgeCore.Stage.{
  init, is_busy, Request, stage, bytes_of, refusal, bad_argument, put_stroke,
}
use picobridge.BridgeCore.Control.{abort, cancel, tick, confirm, next, advance}
use picobridge.BridgeCore.Utf8.Encode.{IsByte}
use picobridge.BridgeCore.Typing.Stage.{length-bytes_of}
use picobridge.BridgeCore.Typing.Accept.{IsStaging}
use picobridge.BridgeCore.Refusal.{IsSpent}
use picobridge.BridgeCore.Outcome.{StageOutcome, turned_away, failed, accepted, stage-StageOutcome}
use picobridge.BridgeCore.Invariant.{IsValid}
use picobridge.BridgeCore.Invariant.Cells.{All-replicate, All-take-set, drop-set, length-type_text}

-- A wiped core is valid if its ledger fits.
pub terminate-IsValid :
    (c : Core) (s : State)
    → length c.replay ≤ replay_capacity
    → is_busy s ≡ false
    → s ≢ staged
    → IsValid (terminate c s)
unfolding terminate
terminate-IsValid c s h quiet ne = record {
  ledger = h;
  cells = length-replicate max_strokes no_stroke;
  count = omega arith;
  cursor_in = omega arith;
  consumed = tt;
  unused = All-replicate max_strokes;
  idle = λ e. refl;
  spent = λ e. cc;
  lives = λ e. cc;
  short_life = λ e. cc;
  untouched = λ e. refl;
}

-- A core after initialisation is valid.
pub init-IsValid : IsValid init
unfolding init is_busy terminate
init-IsValid = record {
  ledger = omega arith;
  cells = length-replicate max_strokes no_stroke;
  count = omega arith;
  cursor_in = omega arith;
  consumed = tt;
  unused = All-replicate max_strokes;
  idle = λ e. refl;
  spent = λ e. cc;
  lives = λ e. cc;
  short_life = λ e. cc;
  untouched = λ e. refl;
}

pub IsSpent-last :
    (owner id : ℕ) (ts : List Ticket)
    → IsSpent owner id (ts ++ record { owner = owner; id = id } ∷ [])
IsSpent-last owner id [] = inl (refl, refl)
IsSpent-last owner id (t ∷ ts) = inr (IsSpent-last owner id ts)

accepted_facts :
    (c : Core) (r : Request)
    → refusal c r ≡ none
    → (length c.replay ≢ replay_capacity) × (0 < r.ttl_ms) × (r.ttl_ms ≤ max_ttl_ms)
unfolding refusal bad_argument
accepted_facts c r h = ground arith

staging-IsValid :
    (c : Core) (r : Request) (now_ms : ℕ) (c' : Core)
    → length c.replay ≤ replay_capacity
    → IsStaging c r now_ms c'
    → IsValid c'
unfolding is_busy
staging-IsValid c r now_ms c' h s = rw s.is_job (record {
  ledger =
      omega (arith, length-append c.replay (record { owner = r.owner; id = r.id } ∷ []), facts.0);
  cells = omega (
    arith,
    length-append s.keys (replicate (max_strokes - length s.keys) no_stroke),
    length-replicate (max_strokes - length s.keys) no_stroke,
    few,
  );
  count = few;
  cursor_in = omega arith;
  consumed = tt;
  unused = rw (drop-append s.keys) (All-replicate _);
  idle = λ e. cc;
  spent = λ e. IsSpent-last r.owner r.id c.replay;
  lives = λ e. facts.1;
  short_life = λ e. facts.2;
  untouched = λ e. refl;
})
  where
    facts : (length c.replay ≢ replay_capacity) × (0 < r.ttl_ms) × (r.ttl_ms ≤ max_ttl_ms)
    facts = accepted_facts c r s.passes

    few : length s.keys ≤ max_strokes
    few = omega (
      arith,
      length-type_text r.options s.text.cps s.keys s.types,
      length-bytes_of c r s.passes,
      ap length s.text.encoded,
    )

-- The states in which nothing is in progress.
wiped_to :
    (c : Core)
    → IsValid c
    → IsValid (terminate c rejected)
      × IsValid (terminate c cancelled)
      × IsValid (terminate c expired)
      × IsValid (terminate c completed)
unfolding is_busy
wiped_to c v = (
  terminate-IsValid c rejected v.ledger refl (λ e. cc),
  terminate-IsValid c cancelled v.ledger refl (λ e. cc),
  terminate-IsValid c expired v.ledger refl (λ e. cc),
  terminate-IsValid c completed v.ledger refl (λ e. cc),
)

pub abort-IsValid : (c : Core) → IsValid c → IsValid (abort c)
unfolding abort
abort-IsValid c v = (wiped_to c v).1

pub cancel-IsValid : (c : Core) (owner id : ℕ) → IsValid c → IsValid (cancel c owner id).1
unfolding cancel
cancel-IsValid c owner id v = ground (arith, wiped_to c v)

pub tick-IsValid : (c : Core) (now_ms : ℕ) → IsValid c → IsValid (tick c now_ms).1
unfolding tick
tick-IsValid c now_ms v = ground (arith, wiped_to c v)

executing-IsValid :
    (c : Core) → is_busy c.state ≡ true → IsValid c → IsValid (record c { state = executing })
unfolding is_busy
executing-IsValid c busy v = record {
  ledger = v.ledger;
  cells = v.cells;
  count = v.count;
  cursor_in = v.cursor_in;
  consumed = v.consumed;
  unused = v.unused;
  idle = λ e. cc;
  spent = λ e. v.spent busy;
  lives = λ e. v.lives busy;
  short_life = λ e. v.short_life busy;
  untouched = λ e. cc;
}

-- The core after a stroke is handed out.
abbrev pub stepped : Core → Core
stepped c = record (put_stroke c c.cursor no_stroke) { cursor = c.cursor + 1 }

stepped-IsValid :
    (c : Core) → c.state ≡ executing → c.cursor < c.stroke_count → IsValid c → IsValid (stepped c)
unfolding is_busy
stepped-IsValid c run more v = record {
  ledger = v.ledger;
  cells = length-set c.strokes c.cursor no_stroke ∙ v.cells;
  count = v.count;
  cursor_in = omega arith;
  consumed = rw add-one (All-take-set c.cursor c.strokes v.consumed);
  unused = rw (drop-set c.stroke_count c.cursor c.strokes no_stroke more) v.unused;
  idle = λ e. ground arith;
  spent = v.spent;
  lives = v.lives;
  short_life = v.short_life;
  untouched = λ e. ground arith;
}

pub confirm-IsValid :
    (c : Core) (owner id now_ms : ℕ) → IsValid c → IsValid (confirm c owner id now_ms).1
unfolding confirm tick is_busy
confirm-IsValid c owner id now_ms v = ground (arith, wiped_to c v, executing-IsValid c)

pub next-IsValid : (c : Core) (now_ms : ℕ) → IsValid c → IsValid (next c now_ms).core
unfolding next tick advance
next-IsValid c now_ms v = ground (arith, wiped_to c v, stepped-IsValid c)

pub stage-IsValid :
    (c : Core) (r : Request) (now_ms : ℕ)
    → All IsByte (bytes_of r)
    → IsValid c
    → IsValid (stage c r now_ms).1
stage-IsValid c r now_ms hb v = from (stage-StageOutcome c r now_ms hb)
  where
    from : StageOutcome c r now_ms (stage c r now_ms) → IsValid (stage c r now_ms).1
    from (turned_away busy e) = rw e v
    from (failed idle ne e) = rw e (wiped_to c v).0
    from (accepted e s) = staging-IsValid c r now_ms (stage c r now_ms).1 v.ledger s
