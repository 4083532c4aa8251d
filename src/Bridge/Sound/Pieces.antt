-- ===== src/Bridge/Sound/Pieces.antt =====
-- What single handlers of firmware/bridge_main.c keep, and how the store of a change is the next one.
use picobridge.Prelude.{
  ℕ, ◌+◌, ◌<◌, ◌^◌, ◌≡◌, inl, inr, ap, arith, Bool, true, false, List, length, take, drop, ltb, u16,
  Bool-cases, if◌then◌else◌, All, All-take, All-drop,
}
use picobridge.BridgeCore.Types.{Status, err_argument, Core}
use picobridge.BridgeCore.Utf8.Encode.{IsByte}
use picobridge.BridgeCore.Stage.{bytes_of}
use picobridge.BridgeCore.Control
use picobridge.BridgeCore.Invariant.{IsValid}
use picobridge.BridgeCore.Invariant.Ops.{
  stage-IsValid, confirm-IsValid, cancel-IsValid, tick-IsValid,
}
use picobridge.ControllerStore.Types.{Store}
use picobridge.ControllerStore.Memory.{le_value}
use picobridge.ControllerStore.Admin.{add, revoke}
use picobridge.ControllerStore.Change.{AddOutcome, added, refused, RevokeOutcome, revoked, kept}
use picobridge.ControllerStore.Flash.{Board, is_ok}
use picobridge.Bridge.{Machine, World}
use picobridge.Bridge.Handlers.{
  word_at, request_of, with_core, with_radio, handle_stage, handle_confirm, handle_cancel,
  handle_tick,
}
use picobridge.Bridge.Sound.{IsSound}

module _ {late : Bool} where
  -- Neither the radio's sector nor the receipt's status matters.
  pub with_core-IsSound :
      (m : Machine) (r : Status × Core)
      → IsSound late m
      → IsValid r.1
      → IsSound late (with_core m r).1
  with_core-IsSound m r v c = record {
    core = c;
    trusted = v.trusted;
    boots = v.boots;
    buffer = v.buffer;
  }

  pub with_radio-IsSound :
      (board : Board) (w : World) (m : Machine) (r : Bool × List ℕ)
      → IsSound late m
      → IsSound late (with_radio board w m r).1
  with_radio-IsSound board w m r v = record {
    core = v.core;
    trusted = v.trusted;
    boots = v.boots;
    buffer = v.buffer;
  }

  -- A handler that refuses, or runs an operation of the core.
  pub guarded-IsSound :
      (m : Machine) (b : Bool) (r : Status × Core)
      → IsSound late m
      → IsValid r.1
      → IsSound late (if b then (err_argument, m) else with_core m r).1
  guarded-IsSound m true r v c = v
  guarded-IsSound m false r v c = with_core-IsSound m r v c

  pub stage-IsSound :
      (m : Machine) (p : List ℕ) → All IsByte p → IsSound late m → IsSound late (handle_stage m p).1
  unfolding handle_stage
  stage-IsSound m p hb v =
      let request = request_of p in
      let bytes : All IsByte (bytes_of (request_of p)) =
        unfold request_of in
        All-take IsByte (le_value (take 2 (drop 12 p))) (drop 14 p) (All-drop IsByte 14 p hb) in
      let staged = stage-IsValid m.core request m.ble_now_ms bytes v.core in
      elim (Bool-cases (ltb (length p) 14)) [
        | inl short ↦ rw short v
        | inr long ↦ rw long (
            guarded-IsSound m (ltb (length p) (u16 (14 + le_value (take 2 (drop 12 p))))) _ v
              staged)
      ]

  pub confirm-IsSound :
      (m : Machine) (p : List ℕ) → IsSound late m → IsSound late (handle_confirm m p).1
  unfolding handle_confirm
  confirm-IsSound m p v =
      guarded-IsSound m (ltb (length p) 9)
        (Control.confirm m.core (word_at 1 p) (word_at 5 p) m.ble_now_ms) v
        (confirm-IsValid m.core (word_at 1 p) (word_at 5 p) m.ble_now_ms v.core)

  pub cancel-IsSound :
      (m : Machine) (p : List ℕ) → IsSound late m → IsSound late (handle_cancel m p).1
  unfolding handle_cancel
  cancel-IsSound m p v =
      guarded-IsSound m (ltb (length p) 9) (Control.cancel m.core (word_at 1 p) (word_at 5 p)) v
        (cancel-IsValid m.core (word_at 1 p) (word_at 5 p) v.core)

  pub tick-IsSound : (m : Machine) (p : List ℕ) → IsSound late m → IsSound late (handle_tick m p).1
  unfolding handle_tick
  tick-IsSound m p v =
      guarded-IsSound m (ltb (length p) 5) (Control.tick m.core (word_at 1 p)) v
        (tick-IsValid m.core (word_at 1 p) v.core)

-- A change that succeeds makes the store the next one.
pub added_next :
    (s : Store) (caller : ℕ) (key : List ℕ) (role : ℕ)
    → s.generation + 1 < 2 ^ 32
    → is_ok (add s caller key role).status ≡ true
    → AddOutcome s caller key role (add s caller key role)
    → (add s caller key role).store.generation ≡ s.generation + 1
added_next s caller key role room h (added e a) =
    omega (arith, ap (λ (x : Store). x.generation) a.stored)
added_next s caller key role room h (refused ne same told) = absurd (ground arith)

pub revoked_next :
    (s : Store) (caller target : ℕ)
    → s.generation + 1 < 2 ^ 32
    → is_ok (revoke s caller target).0 ≡ true
    → RevokeOutcome s caller target (revoke s caller target)
    → (revoke s caller target).1.generation ≡ s.generation + 1
revoked_next s caller target room h (revoked e r) =
    omega (arith, ap (λ (x : Store). x.generation) r.stored)
revoked_next s caller target room h (kept ne same) = absurd (ground arith)
