-- ===== src/BridgeCore/EndToEnd.antt =====
-- From a text to its keystrokes: stage, confirm, drain.
use picobridge.Prelude.{
  ℕ, ◌-◌, ◌≤◌, ◌<◌, ◌≡◌, refl, ap, ◌∙◌, arith, List, [], ◌∷◌, ◌++◌, length, take, false, none, All,
  length-append, length-replicate, take-append, replicate, sub32,
}
use picobridge.BridgeCore.Types.{
  Status, ok, executing, completed, terminate, Core, Stroke, no_stroke, max_strokes,
}
use picobridge.BridgeCore.Stage
use picobridge.BridgeCore.Stage.{Request, is_busy, refusal, bytes_of}
use picobridge.BridgeCore.Control
use picobridge.BridgeCore.Utf8.Encode.{IsScalarValue, encode}
use picobridge.BridgeCore.Typing.{typed, type_text}
use picobridge.BridgeCore.Typing.Cells.{cells}
use picobridge.BridgeCore.Typing.Stage.{job, staging, stage-staging, length-bytes_of}
use picobridge.BridgeCore.Commands.{Command, stage, confirm, next, exec, run, strokes_of}
use picobridge.BridgeCore.Confirm.{confirm-ok_iff}
use picobridge.BridgeCore.Drain.{nexts, drain_lem}
use picobridge.BridgeCore.Invariant.Cells.{length-type_text}

-- A text's own life: it is staged, confirmed by its owner, and asked for its strokes and once more.
abbrev pub session : Request → ℕ → ℕ → List ℕ → ℕ → List Command
session r staged_ms confirmed_ms times last =
    stage r staged_ms ∷ confirm r.owner r.id confirmed_ms ∷ (nexts times ++ next last ∷ [])

module _ (c : Core) (r : Request) (staged_ms confirmed_ms : ℕ) (cps : List ℕ) (ks : List Stroke)
    (idle : is_busy c.state ≡ false) (passes : refusal c r ≡ none) (text : bytes_of r ≡ encode cps)
    (scalar : All IsScalarValue cps) (types : type_text r.options cps ≡ typed ks)
    (in_time : sub32 confirmed_ms staged_ms < r.ttl_ms) where
  abbrev confirmed : Core
  confirmed = record (job c r staged_ms ks) { state = executing }

  few : length ks ≤ max_strokes
  few =
      omega
        (arith, length-type_text r.options cps ks types, length-bytes_of c r passes, ap length text)

  staged_lem : Stage.stage c r staged_ms ≡ (ok, job c r staged_ms ks)
  staged_lem =
      stage-staging c r staged_ms cps idle passes text scalar ∙ ap (staging c r staged_ms) types

  confirmed_lem : (Control.confirm (job c r staged_ms ks) r.owner r.id confirmed_ms).1 ≡ confirmed
  confirmed_lem =
      let (iff, effect) = confirm-ok_iff (job c r staged_ms ks) r.owner r.id confirmed_ms in
      effect (iff.1 (refl, refl, refl, in_time))

  to_confirmed :
      (Control.confirm (Stage.stage c r staged_ms).1 r.owner r.id confirmed_ms).1 ≡ confirmed
  to_confirmed =
      ap (λ (p : Status × Core). (Control.confirm p.1 r.owner r.id confirmed_ms).1) staged_lem
      ∙ confirmed_lem

  length-cells : length (cells ks) ≡ max_strokes
  length-cells = omega (
    arith,
    length-append ks (replicate (max_strokes - length ks) no_stroke),
    length-replicate (max_strokes - length ks) no_stroke,
    few,
  )

  -- A valid request is typed whole: staged on an idle core, confirmed by its owner in time, and
  -- asked for as many strokes as its text has and once more, at any times, the core hands out
  -- exactly the strokes of the text, in order, and ends wiped, COMPLETED and with the ticket spent.
  pub session_types_text :
      (times : List ℕ) (last : ℕ)
      → length times ≡ length ks
      → (strokes_of c (session r staged_ms confirmed_ms times last) ≡ ks)
        × (run c (session r staged_ms confirmed_ms times last)
            ≡ terminate (job c r staged_ms ks) completed)
  unfolding strokes_of run exec terminate
  session_types_text times last e = (
    ap (λ (k : Core). strokes_of k (nexts times ++ next last ∷ [])) to_confirmed
        ∙ (drained.0 ∙ rw (e, take-append) refl),
    ap (λ (k : Core). run k (nexts times ++ next last ∷ [])) to_confirmed ∙ drained.1,
  )
    where
      drained :
          (strokes_of confirmed (nexts times ++ next last ∷ []) ≡ take (length times) (cells ks))
          × (run confirmed (nexts times ++ next last ∷ []) ≡ terminate confirmed completed)
      drained =
          drain_lem confirmed times last refl (omega (arith, e)) (omega (arith, length-cells, few))
