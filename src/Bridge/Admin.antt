-- ===== src/Bridge/Admin.antt =====
-- Who may change what the firmware stores: the handlers of firmware/bridge_main.c.
use picobridge.Prelude.{
  ℕ, ◌≡◌, inl, inr, refl, ap, ◌∙◌, Bool, true, false, Option, none, some, List, [], ◌∷◌, ◌+◌,
  length, take, drop, ltb, ◌==◌, Bool-cases, if◌then◌else◌, u16,
}
use picobridge.BridgeCore.Types.{Status, err_argument, Core}
use picobridge.ControllerStore.Memory.{le_value}
use picobridge.ControllerStore.Types.{Store}
use picobridge.ControllerStore.Flash.{Board, Flash}
use picobridge.NoiseIk.{Crypto, Session}
use picobridge.NoiseIk.Transport.{noise_authenticated_slot}
use picobridge.Bridge.{Machine, World}
use picobridge.Bridge.Handlers.{
  Command, stage, confirm, cancel, tick, controller_add, controller_revoke, set_radio, clear_radio,
  other, command_of, by_admin, with_core, answered, net_query, run_command,
  handle_authenticated_command, handle_stage, handle_confirm, handle_cancel, handle_tick,
  handle_controller_add, handle_controller_revoke, handle_set_radio, handle_clear_radio,
}
use picobridge.Bridge.Frames.{with_session, process_frame}
use picobridge.Bridge.Outcome.{
  IsCommanded, FrameOutcome, ignored, shaken, commanded, frame-FrameOutcome,
}

-- What is stored: the controllers, their two sectors and the radio's sector.
abbrev pub stored : Machine → Store × Flash × List ℕ
stored m = (m.controllers, m.flash, m.radio)

guarded_keeps :
    (m : Machine) (b : Bool) (r : Status × Core)
    → stored (if b then (err_argument, m) else with_core m r).1 ≡ stored m
guarded_keeps m true r = refl
guarded_keeps m false r = refl

stage_keeps : (m : Machine) (p : List ℕ) → stored (handle_stage m p).1 ≡ stored m
unfolding handle_stage
stage_keeps m p = elim (Bool-cases (ltb (length p) 14)) [
  | inl short ↦ rw short refl
  | inr long ↦
      rw long (guarded_keeps m (ltb (length p) (u16 (14 + le_value (take 2 (drop 12 p))))) _)
]

module _ (board : Board) (w : World) (m : Machine) (p : List ℕ) (h : by_admin m ≡ false) where
  add_keeps : (handle_controller_add board w m p).1 ≡ m
  unfolding handle_controller_add
  add_keeps = elim (Bool-cases (length p == 34)) [
    | inl sized ↦ rw (sized, h) refl
    | inr wrong ↦ rw wrong refl
  ]

  revoke_keeps : (handle_controller_revoke board w m p).1 ≡ m
  unfolding handle_controller_revoke
  revoke_keeps = elim (Bool-cases (length p == 2)) [
    | inl sized ↦ rw (sized, h) refl
    | inr wrong ↦ rw wrong refl
  ]

  set_radio_keeps : (handle_set_radio board w m p).1 ≡ m
  unfolding handle_set_radio
  set_radio_keeps = elim (Bool-cases (ltb (length p) 3)) [
    | inl short ↦ rw short refl
    | inr long ↦ rw (long, h) refl
  ]

  clear_radio_keeps : (handle_clear_radio board w m).1 ≡ m
  unfolding handle_clear_radio
  clear_radio_keeps = rw h refl

  command_keeps : (c : Command) → stored (run_command board w c m p).1 ≡ stored m
  unfolding run_command
  command_keeps stage = stage_keeps m p
  command_keeps confirm = unfold handle_confirm in guarded_keeps m (ltb (length p) 9) _
  command_keeps cancel = unfold handle_cancel in guarded_keeps m (ltb (length p) 9) _
  command_keeps tick = unfold handle_tick in guarded_keeps m (ltb (length p) 5) _
  command_keeps controller_add = ap stored add_keeps
  command_keeps controller_revoke = ap stored revoke_keeps
  command_keeps set_radio = ap stored set_radio_keeps
  command_keeps clear_radio = ap stored clear_radio_keeps
  command_keeps other =
      elim w.diagnostics
        as (λ d.
          stored
            (elim d as (λ x. Bool × Machine) [
              | none ↦ answered m none
              | some x ↦ answered m (net_query x p)
            ]).1
          ≡ stored m) [ none ↦ refl | some d ↦ answered_keeps (net_query d p) ]
    where
      answered_keeps : (o : Option ℕ) → stored (answered m o).1 ≡ stored m
      answered_keeps none = refl
      answered_keeps (some b) = refl

authenticated_keeps :
    (board : Board) (w : World) (m : Machine) (p : List ℕ)
    → by_admin m ≡ false
    → stored (handle_authenticated_command board w m p).1 ≡ stored m
unfolding handle_authenticated_command
authenticated_keeps board w m [] h = refl
authenticated_keeps board w m (b ∷ p) h = command_keeps board w m (b ∷ p) h (command_of b)

-- No frame changes the controllers, their sectors or the radio's sector, unless the session is an
-- administrator's of the store.
pub only_admins_store :
    (crypto : Crypto) (board : Board) (w : World) (m : Machine) (frame : List ℕ) (resp_cap : ℕ)
    → by_admin m ≡ false
    → stored (process_frame crypto board w m frame resp_cap).1 ≡ stored m
only_admins_store crypto board w m frame resp_cap h =
    from (process_frame crypto board w m frame resp_cap)
      (frame-FrameOutcome crypto board w m frame resp_cap)
  where
    same_caller :
        (m' : Machine) (c : IsCommanded crypto board w m frame m')
        → by_admin (with_session m c.session) ≡ false
    same_caller m' c =
        ap (λ (x : Session). by_admin (with_session m x)) c.opened.counted
        ∙ (unfold noise_authenticated_slot in h)

    from : (r : List ℕ × Machine) → FrameOutcome crypto board w m frame r → stored r.1 ≡ stored m
    from r (ignored e) = ap (λ (x : List ℕ × Machine). stored x.1) e
    from r (shaken message framed sized session e) = ap stored e
    from r (commanded c) =
        ap stored c.obeyed
        ∙ authenticated_keeps board w (with_session m c.session) c.plaintext (same_caller r.1 c)
