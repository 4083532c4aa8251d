-- ===== src/BridgeCore/Typing/Stage.antt =====
-- `bridge_core_stage` against the specification: what it stages, and what it refuses.
use picobridge.Prelude.{
  ℕ, zero, suc, ◌≤◌, ◌≡◌, ◌≢◌, refl, ◌∙◌, arith, List, [], ◌∷◌, ◌++◌, length, false, Option, none,
  some, All, if◌then◌else◌, take,
}
use picobridge.BridgeCore.Types.{
  Status, ok, rejected, empty, staged, terminate, Stroke, no_stroke, Core,
}
use picobridge.BridgeCore.Stage.{
  Request, is_busy, refusal, bytes_of, accept, stage, run_stage, stage_loop, commit_stage, reject,
  Options, allows_lf, map_key,
}
use picobridge.BridgeCore.Utf8.Encode.{IsScalarValue, encode}
use picobridge.BridgeCore.Typing.{
  Typed, typed, refused, type_text, type_char, type_chars, type_key, then_type, fold_crlf,
}
use picobridge.BridgeCore.Typing.Cells.{cells, filled}
use picobridge.BridgeCore.Typing.Loop.{loop-type_text, outcome}

-- The core that holds a request's strokes, its ticket spent.
abbrev pub job : Core → Request → ℕ → List Stroke → Core
job core r now_ms ks = record {
  replay = core.replay ++ record { owner = r.owner; id = r.id } ∷ [];
  state = staged;
  owner = r.owner;
  id = r.id;
  staged_at_ms = now_ms;
  ttl_ms = r.ttl_ms;
  layout = r.options.layout;
  mode = r.options.mode;
  flags = r.options.flags;
  stroke_count = length ks;
  cursor = 0;
  strokes = cells ks;
}

-- What a stage command returns for a text that types `t`.
abbrev pub staging : Core → Request → ℕ → Typed → Status × Core
staging core r now_ms (typed ks) = (ok, job core r now_ms ks)
staging core r now_ms (refused status) = (status, terminate core rejected)

abbrev IsRefusal : Typed → Type 0
IsRefusal (typed ks) = Unit
IsRefusal (refused ok) = ⊥
IsRefusal (refused _) = Unit

type_key-IsRefusal :
    (o : Options) (cp : ℕ) (mapped : Status × Stroke) → IsRefusal (type_key o cp mapped)
unfolding type_key
type_key-IsRefusal o cp (ok, s) = tt
type_key-IsRefusal o cp (_, s) = tt

then_type-IsRefusal : (t u : Typed) → IsRefusal t → IsRefusal u → IsRefusal (then_type t u)
then_type-IsRefusal (typed ks) (typed ls) ht hu = tt
then_type-IsRefusal (typed ks) (refused status) ht hu = hu
then_type-IsRefusal (refused status) u ht hu = ht

type_char-IsRefusal : (o : Options) (cp : ℕ) → IsRefusal (type_char o cp)
unfolding type_char
type_char-IsRefusal o cp = ground (arith, type_key-IsRefusal o cp (map_key o cp no_stroke))

type_chars-IsRefusal : (o : Options) (cps : List ℕ) → IsRefusal (type_chars o cps)
unfolding type_chars
type_chars-IsRefusal o [] = tt
type_chars-IsRefusal o (cp ∷ cps) =
    then_type-IsRefusal (type_char o cp) (type_chars o cps) (type_char-IsRefusal o cp)
      (type_chars-IsRefusal o cps)

-- No refusal of a character has the status OK.
type_text-IsRefusal : (o : Options) (cps : List ℕ) → IsRefusal (type_text o cps)
unfolding type_text
type_text-IsRefusal o cps = type_chars-IsRefusal o (if allows_lf o then fold_crlf cps else cps)

pub type_text-ne-ok : (o : Options) (cps : List ℕ) → type_text o cps ≢ refused ok
type_text-ne-ok o cps e = rw e at (type_text-IsRefusal o cps)

length-take-le : (n : ℕ) (bytes : List ℕ) → length (take n bytes) ≤ n
length-take-le zero bytes = omega arith
length-take-le (suc n) [] = omega arith
length-take-le (suc n) (b ∷ bytes) = omega (arith, length-take-le n bytes)

-- A request that is not refused has at most 1024 bytes.
pub length-bytes_of :
    (core : Core) (r : Request) → refusal core r ≡ none → length (bytes_of r) ≤ 1024
unfolding refusal
length-bytes_of core r h = bound r.utf8
  where
    small : r.length ≤ 1024
    small = ground arith

    bound :
        (utf8 : Option (List ℕ))
        → length (elim utf8 [ none ↦ [] | some bytes ↦ take r.length bytes ]) ≤ 1024
    bound none = omega arith
    bound (some bytes) = omega (arith, length-take-le r.length bytes, small)

commit-outcome :
    (core : Core) (r : Request) (now_ms : ℕ) (t : Typed)
    → IsRefusal t
    → commit_stage r.owner r.id (outcome (accept (terminate core empty) r now_ms) [] t)
      ≡ staging core r now_ms t
unfolding commit_stage terminate
commit-outcome core r now_ms (typed ks) h = refl
commit-outcome core r now_ms (refused ok) h = absurd h
commit-outcome core r now_ms (refused _) h = refl

-- The tests read only the ledger.
pub refusal-terminate :
    (core : Core) (r : Request) → refusal (terminate core empty) r ≡ refusal core r
unfolding refusal terminate
refusal-terminate core r = refl

pub run_stage-accepted :
    (core : Core) (r : Request) (now_ms : ℕ)
    → refusal core r ≡ none
    → run_stage core r now_ms
      ≡ commit_stage r.owner r.id
          (stage_loop (length (bytes_of r)) r.options (bytes_of r) (accept core r now_ms))
unfolding run_stage
run_stage-accepted core r now_ms passes = rw (passes, run_stage) refl

pub run_stage-refused :
    (core : Core) (r : Request) (now_ms : ℕ) (status : Status)
    → refusal core r ≡ some status
    → run_stage core r now_ms ≡ reject core status
unfolding run_stage
run_stage-refused core r now_ms status refuses = rw (refuses, run_stage) refl

-- The core at the loop's start has its cells wiped.
accept-filled :
    (core : Core) (r : Request) (now_ms : ℕ)
    → accept (terminate core empty) r now_ms ≡ filled (accept (terminate core empty) r now_ms) []
unfolding terminate
accept-filled core r now_ms = refl

loop_from_start :
    (core : Core) (r : Request) (now_ms : ℕ) (cps : List ℕ)
    → length (encode cps) ≤ 1024
    → All IsScalarValue cps
    → stage_loop
        (length (encode cps))
        r.options
        (encode cps)
        (accept (terminate core empty) r now_ms)
      ≡ outcome (accept (terminate core empty) r now_ms) [] (type_text r.options cps)
unfolding terminate
loop_from_start core r now_ms cps small scalar =
    loop-type_text r.options (accept (terminate core empty) r now_ms) cps [] (length (encode cps))
      scalar (omega arith) (omega arith)

-- When the core is idle, the request passes the tests and its bytes are the UTF-8 encoding of a
-- text, the stage command types the text: it stages exactly the strokes of the specification,
-- spends the ticket and returns OK, or, at a character that is refused, returns the
-- specification's status and leaves a wiped core in the state REJECTED.
pub stage-staging :
    (core : Core) (r : Request) (now_ms : ℕ) (cps : List ℕ)
    → is_busy core.state ≡ false
    → refusal core r ≡ none
    → bytes_of r ≡ encode cps
    → All IsScalarValue cps
    → stage core r now_ms ≡ staging core r now_ms (type_text r.options cps)
unfolding stage
stage-staging core r now_ms cps idle passes text scalar =
    rw
      (
        idle,
        run_stage-accepted (terminate core empty) r now_ms (refusal-terminate core r ∙ passes),
        text,
      )
      (rw (loop_from_start core r now_ms cps (rw text at (length-bytes_of core r passes)) scalar) (
        commit-outcome core r now_ms (type_text r.options cps) (type_text-IsRefusal r.options cps)))
