-- ===== src/BridgeCore/Outcome.antt =====
-- The three things that a stage command can do to the core.
use picobridge.Prelude.{
  ℕ, zero, suc, ◌≡◌, ◌≢◌, ◌⊎◌, inl, inr, refl, ap, ◌∙◌, arith, List, [], ◌∷◌, length, true, false,
  none, some, Bool-cases, Option-cases, get_or, All,
}
use picobridge.BridgeCore.Types.{
  Status, ok, err_busy, State, empty, rejected, terminate, Stroke, no_stroke, Ticket, Core,
}
use picobridge.BridgeCore.Stage.{
  Options, Request, Turn, go, stop, next_cell, put_stroke, is_busy, add_dead_space, map_key,
  store_key, stage_char, stage_decoded, stage_loop, commit_stage, reject, refusal, bytes_of, accept,
  stage,
}
use picobridge.BridgeCore.Utf8.{Decoded, decode_utf8}
use picobridge.BridgeCore.Utf8.Encode.{IsByte}
use picobridge.BridgeCore.Typing.Stage.{run_stage-accepted, run_stage-refused, refusal-terminate}
use picobridge.BridgeCore.Typing.Accept.{IsStaging, stage-ok-IsStaging, stage-busy, stage-idle}
use picobridge.BridgeCore.Typing.Accept.{refusal-ne-ok}
use picobridge.BridgeCore.Stage.{tail_bytes}
use picobridge.BridgeCore.Typing.Sound.{Result, stopped, on_rest, on_tail, stage_decoded-Result}

-- A turn leaves the ledger alone.
abbrev Keeps : List Ticket → Turn → Type 0
Keeps ts (go core rest) = core.replay ≡ ts
Keeps ts (stop status) = Unit

replay-add_dead_space :
    (o : Options) (cp : ℕ) (core : Core) → (add_dead_space o cp core).replay ≡ core.replay
unfolding add_dead_space
replay-add_dead_space o cp core = ground arith

store_key-Keeps :
    (o : Options) (cp : ℕ) (core : Core) (i : ℕ) (rest : List ℕ) (mapped : Status × Stroke)
    → Keeps core.replay (store_key o cp core i rest mapped)
unfolding store_key
store_key-Keeps o cp core i rest (ok, s) = replay-add_dead_space o cp (put_stroke core i s)
store_key-Keeps o cp core i rest (_, s) = tt

stage_char-Keeps :
    (o : Options) (core : Core) (cp : ℕ) (rest : List ℕ)
    → Keeps core.replay (stage_char o core cp rest)
unfolding stage_char
stage_char-Keeps o core cp rest = ground (
  arith,
  store_key-Keeps o cp (next_cell core) core.stroke_count rest
      (map_key o cp (get_or core.strokes core.stroke_count no_stroke)),
)

stage_decoded-Keeps :
    (o : Options) (core : Core) (d : Decoded) → Keeps core.replay (stage_decoded o core d)
unfolding stage_decoded
stage_decoded-Keeps o core d =
    ground
      (arith, stage_char-Keeps o core 10 (tail_bytes d.rest), stage_char-Keeps o core d.cp d.rest)

-- Wiping keeps nothing but the ledger.
pub terminate_same :
    (core core' : Core) (s : State)
    → core'.replay ≡ core.replay
    → terminate core' s ≡ terminate core s
unfolding terminate
terminate_same core core' s e = rw e refl

-- A loop ends well with the ledger that it was given, or in a wiped and rejected core.
LoopEnds : Core → Status × Core → Type 0
LoopEnds core p =
    ((p.0 ≡ ok) × (p.1.replay ≡ core.replay)) ⊎ ((p.0 ≢ ok) × (p.1 ≡ terminate core rejected))

LoopEnds-keeps :
    (core core' : Core) (p : Status × Core)
    → core'.replay ≡ core.replay
    → LoopEnds core' p
    → LoopEnds core p
unfolding LoopEnds
LoopEnds-keeps core core' p e (inl (good, kept)) = inl (good, kept ∙ e)
LoopEnds-keeps core core' p e (inr (bad, wiped)) =
    inr (bad, wiped ∙ terminate_same core core' rejected e)

loop_turn :
    (o : Options) (fuel lead : ℕ) (bytes : List ℕ) (core : Core) (t : Turn)
    → stage_decoded o core (decode_utf8 lead bytes) ≡ t
    → Keeps core.replay t
    → Result (decode_utf8 lead bytes) t
    → ((rest : List ℕ) (core' : Core) → LoopEnds core' (stage_loop fuel o rest core'))
    → LoopEnds core (stage_loop (suc fuel) o (lead ∷ bytes) core)
unfolding stage_loop reject LoopEnds
loop_turn o fuel lead bytes core t e keeps (stopped ne) ih = rw (e, stage_loop) (inr (ne, refl))
loop_turn o fuel lead bytes core t e keeps (on_rest {core = core'} good) ih =
    rw (e, stage_loop) (LoopEnds-keeps core core' _ keeps (ih _ core'))
loop_turn o fuel lead bytes core t e keeps (on_tail {core = core'} {bytes = tail} good lf) ih =
    rw (e, stage_loop) (LoopEnds-keeps core core' _ keeps (ih tail core'))

stage_loop-LoopEnds :
    (o : Options) (fuel : ℕ) (bytes : List ℕ) (core : Core)
    → LoopEnds core (stage_loop fuel o bytes core)
unfolding stage_loop LoopEnds
stage_loop-LoopEnds o zero bytes core = inl (refl, refl)
stage_loop-LoopEnds o (suc fuel) [] core = inl (refl, refl)
stage_loop-LoopEnds o (suc fuel) (lead ∷ bytes) core =
    loop_turn o fuel lead bytes core (stage_decoded o core (decode_utf8 lead bytes)) refl
      (stage_decoded-Keeps o core (decode_utf8 lead bytes))
      (stage_decoded-Result o core (decode_utf8 lead bytes))
      (λ rest core'. stage_loop-LoopEnds o fuel rest core')

-- What a stage command can do: be turned away by a job in progress, fail and leave a wiped core,
-- or stage a text.
pub data StageOutcome (core : Core) (r : Request) (now_ms : ℕ) (p : Status × Core) : Type 0 where
  turned_away : is_busy core.state ≡ true → p ≡ (err_busy, core) → StageOutcome core r now_ms p
  failed :
      is_busy core.state ≡ false
      → p.0 ≢ ok
      → p.1 ≡ terminate core rejected
      → StageOutcome core r now_ms p
  accepted : p.0 ≡ ok → IsStaging core r now_ms p.1 → StageOutcome core r now_ms p

commit_stage-ne-ok : (owner id : ℕ) (p : Status × Core) → p.0 ≢ ok → commit_stage owner id p ≡ p
unfolding commit_stage
commit_stage-ne-ok owner id (ok, core) ne = absurd (ne refl)
commit_stage-ne-ok owner id (_, core) ne = refl

commit_stage_ok : (owner id : ℕ) (p : Status × Core) → p.0 ≡ ok → (commit_stage owner id p).0 ≡ ok
unfolding commit_stage
commit_stage_ok owner id (ok, core) e = refl
commit_stage_ok owner id (_, core) e = cc

module _ (core : Core) (r : Request) (now_ms : ℕ) (hb : All IsByte (bytes_of r)) where
  abbrev looped : Status × Core
  looped =
      stage_loop (length (bytes_of r)) r.options (bytes_of r)
        (accept (terminate core empty) r now_ms)

  wiped_after_accept :
      terminate (accept (terminate core empty) r now_ms) rejected ≡ terminate core rejected
  unfolding terminate
  wiped_after_accept = refl

  wiped_twice : terminate (terminate core empty) rejected ≡ terminate core rejected
  unfolding terminate
  wiped_twice = refl

  stage_from_loop :
      is_busy core.state ≡ false
      → refusal core r ≡ none
      → stage core r now_ms ≡ commit_stage r.owner r.id looped
  stage_from_loop idle passes =
      stage-idle core r now_ms hb idle
      ∙ run_stage-accepted (terminate core empty) r now_ms (refusal-terminate core r ∙ passes)

  loop_outcome :
      is_busy core.state ≡ false
      → refusal core r ≡ none
      → LoopEnds (accept (terminate core empty) r now_ms) looped
      → StageOutcome core r now_ms (stage core r now_ms)
  unfolding LoopEnds
  loop_outcome idle passes (inl (good, kept)) =
      let e : (stage core r now_ms).0 ≡ ok =
        rw (stage_from_loop idle passes) (commit_stage_ok r.owner r.id looped good) in
      accepted e (
        stage-ok-IsStaging core r now_ms hb (stage core r now_ms).1
          (λ i. (e i, (stage core r now_ms).1)))
  loop_outcome idle passes (inr (bad, wiped)) =
      let same = stage_from_loop idle passes ∙ commit_stage-ne-ok r.owner r.id looped bad in
      failed idle (rw same bad)
        (ap (λ (p : Status × Core). p.1) same ∙ (wiped ∙ wiped_after_accept))

  -- Every stage command has one of the three outcomes: with a job in progress it returns BUSY and
  -- changes nothing; otherwise it returns an error and leaves a rejected core with nothing in it
  -- but the ledger, or it returns OK and has staged its text.
  pub stage-StageOutcome : StageOutcome core r now_ms (stage core r now_ms)
  unfolding reject
  stage-StageOutcome = elim (Bool-cases (is_busy core.state)) [
    | inl busy ↦ turned_away busy (stage-busy core r now_ms hb busy)
    | inr idle ↦ elim (Option-cases (refusal core r)) [
      | inl passes ↦ loop_outcome idle passes (
          stage_loop-LoopEnds r.options (length (bytes_of r)) (bytes_of r)
            (accept (terminate core empty) r now_ms))
      | inr (status, e) ↦
          let same =
            stage-idle core r now_ms hb idle
            ∙ run_stage-refused (terminate core empty) r now_ms status
                (refusal-terminate core r ∙ e) in
          failed idle (rw same (λ p. refusal-ne-ok core r (e ∙ ap some p)))
            (ap (λ (p : Status × Core). p.1) same ∙ wiped_twice)
    ]
  ]
