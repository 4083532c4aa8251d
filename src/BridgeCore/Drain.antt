-- ===== src/BridgeCore/Drain.antt =====
-- Draining a confirmed job: its strokes come out in order, each once, and the core ends wiped.
use picobridge.Prelude.{
  ℕ, zero, suc, ◌+◌, ◌≤◌, ◌<◌, ◌≡◌, refl, ap, sym, ◌∙◌, arith, List, [], ◌∷◌, ◌++◌, map, length,
  get_or, take, drop, length-set,
}
use native.Mathlib.Numerals.{add-one}
use picobridge.BridgeCore.Types.{ok, done, executing, completed, terminate, Core, Stroke, no_stroke}
use picobridge.BridgeCore.Control
use picobridge.BridgeCore.Control.{Next, without_stroke}
use picobridge.BridgeCore.Commands.{Command, next, exec, run, strokes_of, Reply}
use mathlib.Core.List.{append_assoc, append-nil}
use picobridge.BridgeCore.Outcome.{terminate_same}
use picobridge.BridgeCore.Invariant.Cells.{drop-set}
use picobridge.BridgeCore.Invariant.Ops.{stepped}

pub take-drop-get :
    (i n : ℕ) (xs : List Stroke)
    → i < length xs
    → take (suc n) (drop i xs) ≡ get_or xs i no_stroke ∷ take n (drop (suc i) xs)
take-drop-get i n [] h = absurd (omega arith)
take-drop-get zero n (x ∷ xs) h = refl
take-drop-get (suc i) n (x ∷ xs) h = take-drop-get i n xs (omega arith)

-- `next` on a job with strokes left.
next-stepped :
    (c : Core) (now_ms : ℕ)
    → c.state ≡ executing
    → c.cursor < c.stroke_count
    → exec c (next now_ms)
      ≡ record { status = ok; strokes = get_or c.strokes c.cursor no_stroke ∷ []; core = stepped c }
unfolding exec Control.next Control.tick Control.advance
next-stepped c now_ms run more = ground arith

next-done :
    (c : Core) (now_ms : ℕ)
    → c.state ≡ executing
    → c.cursor ≡ c.stroke_count
    → Control.next c now_ms ≡ without_stroke done (terminate c completed)
unfolding Control.next Control.tick Control.advance
next-done c now_ms run e = ground arith

abbrev pub nexts : List ℕ → List Command
nexts times = map next times

-- What is left when as many strokes are asked for as remain.
record IsDrained (c : Core) (times : List ℕ) : Type 0 where
  typed_all : strokes_of c (nexts times) ≡ take (length times) (drop c.cursor c.strokes)
  still : (run c (nexts times)).state ≡ executing
  at_end : (run c (nexts times)).cursor ≡ c.cursor + length times
  same_count : (run c (nexts times)).stroke_count ≡ c.stroke_count
  same_replay : (run c (nexts times)).replay ≡ c.replay

drain_step :
    (t : ℕ) (times : List ℕ) (c : Core)
    → c.state ≡ executing
    → c.cursor < c.stroke_count
    → c.stroke_count ≤ length c.strokes
    → IsDrained (stepped c) times
    → IsDrained c (t ∷ times)
unfolding strokes_of run
drain_step t times c e more room rest = record {
  typed_all =
      ap (λ (p : Reply). p.strokes ++ strokes_of p.core (nexts times)) st
      ∙ (ap (λ l. get_or c.strokes c.cursor no_stroke ∷ l)
            (rest.typed_all
              ∙ rw (add-one, drop-set (suc c.cursor) c.cursor c.strokes no_stroke (omega arith))
                  refl)
          ∙ sym (take-drop-get c.cursor (length times) c.strokes (omega arith)));
  still = rw same_run rest.still;
  at_end = rw same_run (omega (arith, rest.at_end));
  same_count = rw same_run rest.same_count;
  same_replay = rw same_run rest.same_replay;
}
  where
    st : exec c (next t) ≡ record {
      status = ok;
      strokes = get_or c.strokes c.cursor no_stroke ∷ [];
      core = stepped c;
    }
    st = next-stepped c t e more

    same_run : run (exec c (next t)).core (nexts times) ≡ run (stepped c) (nexts times)
    same_run = ap (λ (p : Reply). run p.core (nexts times)) st

drain-IsDrained :
    (times : List ℕ) (c : Core)
    → c.state ≡ executing
    → c.cursor + length times ≤ c.stroke_count
    → c.stroke_count ≤ length c.strokes
    → IsDrained c times
unfolding strokes_of run
drain-IsDrained [] c e fits room = record {
  typed_all = refl;
  still = e;
  at_end = omega arith;
  same_count = refl;
  same_replay = refl;
}
drain-IsDrained (t ∷ times) c e fits room =
    drain_step t times c e (omega arith) room
      (drain-IsDrained times (stepped c) e (omega arith) (rw length-set room))

strokes_of-append :
    (c : Core) (xs ys : List Command)
    → strokes_of c (xs ++ ys) ≡ strokes_of c xs ++ strokes_of (run c xs) ys
unfolding strokes_of run
strokes_of-append c [] ys = refl
strokes_of-append c (x ∷ xs) ys =
    ap (λ l. (exec c x).strokes ++ l) (strokes_of-append (exec c x).core xs ys)
    ∙ sym (
        append_assoc (exec c x).strokes (strokes_of (exec c x).core xs)
          (strokes_of (run (exec c x).core xs) ys))

run-append : (c : Core) (xs ys : List Command) → run c (xs ++ ys) ≡ run (run c xs) ys
unfolding run
run-append c [] ys = refl
run-append c (x ∷ xs) ys = run-append (exec c x).core xs ys

-- Asked for all its strokes and once more, a job that is executing types the strokes from its
-- cursor to its count in order, and then ends: the core is wiped but for the ledger and COMPLETED.
pub drain_lem :
    (c : Core) (times : List ℕ) (last : ℕ)
    → c.state ≡ executing
    → c.cursor + length times ≡ c.stroke_count
    → c.stroke_count ≤ length c.strokes
    → (strokes_of c (nexts times ++ next last ∷ []) ≡ take (length times) (drop c.cursor c.strokes))
      × (run c (nexts times ++ next last ∷ []) ≡ terminate c completed)
unfolding strokes_of run exec
drain_lem c times last e fits room = (
  strokes_of-append c (nexts times) (next last ∷ [])
      ∙ rw (over, append-nil, drained.typed_all) refl,
  run-append c (nexts times) (next last ∷ [])
      ∙ (ap (λ (n : Next). n.core) over
          ∙ terminate_same c (run c (nexts times)) completed drained.same_replay),
)
  where
    drained : IsDrained c times
    drained = drain-IsDrained times c e (omega arith) room

    over :
        Control.next (run c (nexts times)) last
        ≡ without_stroke done (terminate (run c (nexts times)) completed)
    over =
        next-done (run c (nexts times)) last drained.still
          (omega (arith, drained.at_end, drained.same_count))
