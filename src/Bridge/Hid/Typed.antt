-- ===== src/Bridge/Hid/Typed.antt =====
-- What the drain of firmware/bridge_main.c types.
use picobridge.Prelude.{
  ℕ, suc, ◌+◌, ◌≤◌, ◌<◌, ◌≡◌, inl, inr, refl, sym, ap, ◌∙◌, arith, true, ◌||◌, List, [], ◌∷◌,
  length, length-set, take, drop, get_or, leb, ◌==◌, if◌then◌else◌, Bool-cases, All, u32,
}
use mathlib.Core.Path.{subst}
use native.Mathlib.Numerals.{add-one}
use picobridge.BridgeCore.Types.{Core, Stroke, no_stroke, executing, ok}
use picobridge.BridgeCore.Control
use picobridge.BridgeCore.Invariant.Cells.{drop-set}
use picobridge.BridgeCore.Invariant.Ops.{stepped}
use picobridge.BridgeCore.Drain.{take-drop-get}
use picobridge.Bridge.Hid.{
  Usb, Report, ReportType, input, output, feature, Callback, on_mount, on_umount, on_suspend,
  on_resume, on_protocol, on_idle, on_report, mount, resume, set_protocol, set_idle, set_report,
  run_callback, run_callbacks, press, release, Poll, Round, after_poll, wait, Drained, then_reports,
  drain_loop,
}

-- The reports of a sequence of strokes: each is pressed and released, and an empty one is nothing.
unfoldable pub reports_of : List Stroke → List Report
reports_of [] = []
reports_of (s ∷ strokes) =
    let rest = reports_of strokes in
    if s.usage == 0 then rest else press s.modifier s.usage ∷ release ∷ rest

-- A callback that neither suspends the bus nor ends the connection.
abbrev pub GoesOn : Callback → Type 0
GoesOn on_umount = ⊥
GoesOn on_suspend = ⊥
GoesOn _ = Unit

-- A round in which the host takes both reports, and neither suspends the bus nor leaves it. It may
-- set reports, the protocol and the idle rate.
pub record IsAccepting (r : Round) : Type 0 where
  pub pressed : r.pressed ≡ true
  pub ready_again : r.ready_again ≡ true
  pub released : r.released ≡ true
  pub awake : All (λ (p : Poll). All GoesOn p.callbacks) r.polls

set_report-core :
    (usb : Usb) (number report_id : ℕ) (type : ReportType) (bytes : List ℕ)
    → (set_report usb number report_id type bytes).core ≡ usb.core
unfolding set_report
set_report-core usb number report_id output (leds ∷ []) = ground arith
set_report-core usb number report_id output [] = refl
set_report-core usb number report_id output (leds ∷ more ∷ bytes) = refl
set_report-core usb number report_id input bytes = refl
set_report-core usb number report_id feature bytes = refl

callback_keeps : (c : Callback) (usb : Usb) → GoesOn c → (run_callback usb c).core ≡ usb.core
unfolding run_callback mount resume set_protocol set_idle
callback_keeps on_mount usb h = refl
callback_keeps on_umount usb h = absurd h
callback_keeps on_suspend usb h = absurd h
callback_keeps on_resume usb h = refl
callback_keeps on_protocol usb h = refl
callback_keeps on_idle usb h = refl
callback_keeps (on_report number report_id type bytes) usb h =
    set_report-core usb number report_id type bytes

callbacks_keep :
    (callbacks : List Callback) (usb : Usb)
    → All GoesOn callbacks
    → (run_callbacks callbacks usb).core ≡ usb.core
unfolding run_callbacks
callbacks_keep [] usb h = refl
callbacks_keep (c ∷ callbacks) usb h =
    callbacks_keep callbacks (run_callback usb c) h.1 ∙ callback_keeps c usb h.0

wait_keeps :
    (deadline : ℕ) (polls : List Poll) (usb : Usb)
    → All (λ (p : Poll). All GoesOn p.callbacks) polls
    → (wait deadline polls usb).core ≡ usb.core
unfolding wait after_poll
wait_keeps deadline [] usb h = refl
wait_keeps deadline (p ∷ polls) usb h =
    elim (Bool-cases (p.is_ready || leb deadline usb.usb_now_ms)) [
      | inl over ↦ rw over refl
      | inr on ↦
          rw on
            (wait_keeps deadline polls (after_poll p usb) h.1 ∙ callbacks_keep p.callbacks usb h.0)
    ]

next-stepped :
    (c : Core) (now_ms : ℕ)
    → c.state ≡ executing
    → c.cursor < c.stroke_count
    → Control.next c now_ms
      ≡ record { status = ok; stroke = get_or c.strokes c.cursor no_stroke; core = stepped c }
unfolding Control.next Control.tick Control.advance
next-stepped c now_ms run more = ground arith

-- What rounds that accept leave of a core with strokes enough.
pub record IsTyped (rounds : List Round) (c : Core) (d : Drained) : Type 0 where
  pub reports : d.0 ≡ reports_of (take (length rounds) (drop c.cursor c.strokes))
  pub still : d.1.core.state ≡ executing
  pub moved : d.1.core.cursor ≡ c.cursor + length rounds

tail_same :
    (c : Core) (n : ℕ)
    → take n (drop (stepped c).cursor (stepped c).strokes) ≡ take n (drop (suc c.cursor) c.strokes)
tail_same c n =
    rw (add-one, drop-set (suc c.cursor) c.cursor c.strokes no_stroke (omega arith)) refl

module _ (r : Round) (rounds : List Round) (usb : Usb) (a : IsAccepting r)
    (running : usb.core.state ≡ executing) (more : usb.core.cursor < usb.core.stroke_count)
    (room : usb.core.stroke_count ≤ length usb.core.strokes) where
  abbrev c : Core
  c = usb.core

  abbrev s : Stroke
  s = get_or usb.core.strokes usb.core.cursor no_stroke

  abbrev handed : Usb
  handed = record usb { core = stepped usb.core }

  abbrev waited : Usb
  waited = wait (u32 (usb.usb_now_ms + 100)) r.polls handed

  same_asked :
      Control.next usb.core usb.usb_now_ms
      ≡ record { status = ok; stroke = s; core = stepped usb.core }
  same_asked = next-stepped usb.core usb.usb_now_ms running more

  -- A round hands out the next stroke and goes on behind it.
  round_lem : drain_loop (r ∷ rounds) usb ≡ (
      if s.usage == 0
      then drain_loop rounds handed
      else then_reports (press s.modifier s.usage ∷ release ∷ []) (drain_loop rounds waited))
  unfolding drain_loop
  round_lem = rw (same_asked, a.pressed, a.ready_again, a.released) refl

  reports_step : reports_of (take (suc (length rounds)) (drop c.cursor c.strokes)) ≡ (
      if s.usage == 0
      then reports_of (take (length rounds) (drop (suc c.cursor) c.strokes))
      else press s.modifier s.usage
        ∷ release
        ∷ reports_of (take (length rounds) (drop (suc c.cursor) c.strokes)))
  unfolding reports_of
  reports_step =
      ap reports_of (take-drop-get c.cursor (length rounds) c.strokes (omega (arith, more, room)))

  step-IsTyped :
      IsTyped rounds (stepped c) (drain_loop rounds handed)
      → IsTyped rounds (stepped c) (drain_loop rounds waited)
      → IsTyped (r ∷ rounds) c (drain_loop (r ∷ rounds) usb)
  step-IsTyped skipped typed = elim (Bool-cases (s.usage == 0)) [
    | inl nothing ↦
        let same : drain_loop (r ∷ rounds) usb ≡ drain_loop rounds handed =
          round_lem ∙ (rw nothing refl) in
        let reports : reports_of (take (suc (length rounds)) (drop c.cursor c.strokes))
            ≡ reports_of (take (length rounds) (drop (suc c.cursor) c.strokes)) =
          reports_step ∙ (rw nothing refl) in
        record {
          reports =
              ap (λ (d : Drained). d.0) same
              ∙ skipped.reports
              ∙ ap reports_of (tail_same c (length rounds))
              ∙ sym reports;
          still = ap (λ (d : Drained). d.1.core.state) same ∙ skipped.still;
          moved = omega (arith, ap (λ (d : Drained). d.1.core.cursor) same, skipped.moved);
        }
    | inr key ↦
        let same : drain_loop (r ∷ rounds) usb
            ≡ then_reports (press s.modifier s.usage ∷ release ∷ []) (drain_loop rounds waited) =
          round_lem ∙ (rw key refl) in
        let reports : reports_of (take (suc (length rounds)) (drop c.cursor c.strokes))
            ≡ press s.modifier s.usage
              ∷ release
              ∷ reports_of (take (length rounds) (drop (suc c.cursor) c.strokes)) =
          reports_step ∙ (rw key refl) in
        record {
          reports =
              ap (λ (d : Drained). d.0) same
              ∙ ap (λ l. press s.modifier s.usage ∷ release ∷ l)
                  (typed.reports ∙ ap reports_of (tail_same c (length rounds)))
              ∙ sym reports;
          still = ap (λ (d : Drained). d.1.core.state) same ∙ typed.still;
          moved = omega (arith, ap (λ (d : Drained). d.1.core.cursor) same, typed.moved);
        }
  ]

-- While a job is executing, has strokes left for every round and the host takes the reports, each round of the drain types the next
-- stroke: it is pressed and released before the next is pressed, none is left out and none comes
-- twice, and the cursor stands behind them.
pub drain_loop-IsTyped :
    (rounds : List Round) (usb : Usb)
    → All IsAccepting rounds
    → usb.core.state ≡ executing
    → usb.core.cursor + length rounds ≤ usb.core.stroke_count
    → usb.core.stroke_count ≤ length usb.core.strokes
    → IsTyped rounds usb.core (drain_loop rounds usb)
unfolding drain_loop
drain_loop-IsTyped [] usb a running fits room = record {
  reports = unfold reports_of in refl;
  still = running;
  moved = omega arith;
}
drain_loop-IsTyped (r ∷ rounds) usb a running fits room =
    let next_usb : Usb = record usb { core = stepped usb.core } in
    let waiting = wait (u32 (usb.usb_now_ms + 100)) r.polls next_usb in
    let kept : waiting.core ≡ stepped usb.core =
      wait_keeps (u32 (usb.usb_now_ms + 100)) r.polls next_usb a.0.awake in
    let cells : (stepped usb.core).stroke_count ≤ length (stepped usb.core).strokes =
      rw length-set room in
    step-IsTyped r rounds usb a.0 running (omega arith) room
      (drain_loop-IsTyped rounds next_usb a.1 running (omega arith) cells)
      (subst (λ c. IsTyped rounds c (drain_loop rounds waiting)) kept
        (drain_loop-IsTyped rounds waiting a.1 (ap (λ (c : Core). c.state) kept ∙ running)
          (omega
            (arith, ap (λ (c : Core). c.cursor) kept, ap (λ (c : Core). c.stroke_count) kept, fits))
          (subst (λ (c : Core). c.stroke_count ≤ length c.strokes) (sym kept) cells)))
