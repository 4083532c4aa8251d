-- ===== src/BridgeCore/Typing/Accept.antt =====
-- What a successful stage command says of its request, and leaves in the core.
use picobridge.Prelude.{
  ℕ, ◌≡◌, ◌≢◌, refl, ap, sym, ◌∙◌, arith, List, length, true, false, none, some, All, inl, inr,
  Bool-cases, Option-cases,
}
use picobridge.BridgeCore.Types.{Status, ok, err_busy, empty, terminate, Stroke, Core}
use picobridge.BridgeCore.Stage.{
  Request, is_busy, refusal, bytes_of, accept, stage, run_stage, stage_loop, commit_stage, reject,
}
use picobridge.BridgeCore.Utf8.Encode.{IsByte}
use picobridge.BridgeCore.Typing.{Typed, typed, refused, type_text}
use picobridge.BridgeCore.Typing.Stage.{
  job, staging, stage-staging, type_text-ne-ok, refusal-terminate, run_stage-accepted,
  run_stage-refused,
}
use picobridge.BridgeCore.Typing.Sound.{IsText, loop-IsText}

pub refusal-ne-ok : (core : Core) (r : Request) → refusal core r ≢ some ok
unfolding refusal
refusal-ne-ok core r h = ground arith

commit_stage-ok : (owner id : ℕ) (p : Status × Core) → (commit_stage owner id p).0 ≡ ok → p.0 ≡ ok
unfolding commit_stage
commit_stage-ok owner id (ok, core) h = refl
commit_stage-ok owner id (_, core) h = cc

-- What a stage command that returned OK has done.
pub record IsStaging (core : Core) (r : Request) (now_ms : ℕ) (core' : Core) : Type 0 where
  pub idle : is_busy core.state ≡ false
  pub passes : refusal core r ≡ none
  pub text : IsText (bytes_of r)
  pub keys : List Stroke
  pub types : type_text r.options text.cps ≡ typed keys
  pub is_job : core' ≡ job core r now_ms keys

module _ (core : Core) (r : Request) (now_ms : ℕ) (hb : All IsByte (bytes_of r)) where
  pub stage-busy : is_busy core.state ≡ true → stage core r now_ms ≡ (err_busy, core)
  unfolding stage
  stage-busy busy = rw busy refl

  pub stage-idle :
      is_busy core.state ≡ false → stage core r now_ms ≡ run_stage (terminate core empty) r now_ms
  unfolding stage
  stage-idle idle = rw idle refl

  accepted-IsText :
      is_busy core.state ≡ false
      → refusal core r ≡ none
      → (stage core r now_ms).0 ≡ ok
      → IsText (bytes_of r)
  accepted-IsText idle passes h =
      loop-IsText r.options (length (bytes_of r)) (bytes_of r)
        (accept (terminate core empty) r now_ms) hb (omega arith)
        (commit_stage-ok r.owner r.id
          (stage_loop (length (bytes_of r)) r.options (bytes_of r)
            (accept (terminate core empty) r now_ms))
          (rw
            (
              stage-idle idle,
              run_stage-accepted (terminate core empty) r now_ms
                  (refusal-terminate core r ∙ passes),
            )
            at h))

  staged_text :
      (core' : Core) (text : IsText (bytes_of r)) (t : Typed)
      → type_text r.options text.cps ≡ t
      → is_busy core.state ≡ false
      → refusal core r ≡ none
      → stage core r now_ms ≡ (ok, core')
      → IsStaging core r now_ms core'
  staged_text core' text (typed ks) e idle passes h = record {
    idle = idle;
    passes = passes;
    text = text;
    keys = ks;
    types = e;
    is_job = ap (λ (p : Status × Core). p.1) (sym h ∙ (result ∙ ap (staging core r now_ms) e));
  }
    where
      result : stage core r now_ms ≡ staging core r now_ms (type_text r.options text.cps)
      result = stage-staging core r now_ms text.cps idle passes text.encoded text.scalar
  staged_text core' text (refused status) e idle passes h =
      absurd (type_text-ne-ok r.options text.cps (e ∙ ap refused is_ok))
    where
      result : stage core r now_ms ≡ staging core r now_ms (type_text r.options text.cps)
      result = stage-staging core r now_ms text.cps idle passes text.encoded text.scalar

      is_ok : status ≡ ok
      is_ok = ap (λ (p : Status × Core). p.0) (sym (result ∙ ap (staging core r now_ms) e) ∙ h)

  -- A stage command that returns OK found the core idle, the request in order and its bytes the
  -- UTF-8 encoding of a text which the layout can type; the core then holds exactly that text's
  -- strokes, and the ticket is spent.
  pub stage-ok-IsStaging :
      (core' : Core) → stage core r now_ms ≡ (ok, core') → IsStaging core r now_ms core'
  unfolding reject
  stage-ok-IsStaging core' h = elim (Bool-cases (is_busy core.state)) [
    | inl busy ↦ cc (stage-busy busy)
    | inr idle ↦ elim (Option-cases (refusal core r)) [
      | inl passes ↦
          let text = accepted-IsText idle passes (ap (λ (p : Status × Core). p.0) h) in
          staged_text core' text (type_text r.options text.cps) refl idle passes h
      | inr (status, e) ↦ absurd (refusal-ne-ok core r (e ∙ ap some (not_ok idle status e h)))
    ]
  ]
    where
      not_ok :
          is_busy core.state ≡ false
          → (status : Status) → refusal core r ≡ some status
          → stage core r now_ms ≡ (ok, core')
          → status ≡ ok
      not_ok idle status e h' =
          ap (λ (p : Status × Core). p.0)
            (sym (
                stage-idle idle
                ∙ run_stage-refused (terminate core empty) r now_ms status
                    (refusal-terminate core r ∙ e))
              ∙ h')
