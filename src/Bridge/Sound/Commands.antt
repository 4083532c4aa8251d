-- ===== src/Bridge/Sound/Commands.antt =====
-- The authenticated commands of firmware/bridge_main.c keep the machine sound.
use picobridge.Prelude.{
  ℕ, ◌+◌, ◌<◌, ◌^◌, ◌≡◌, inl, inr, arith, Bool, true, not, ◌||◌, ◌&&◌, Option, none, some, List, [],
  ◌∷◌, length, get_or, drop, ltb, u16, ◌==◌, Bool-cases, All, All-drop, length-drop,
}
use picobridge.BridgeCore.Types.{Status}
use picobridge.BridgeCore.Utf8.Encode.{IsByte}
use picobridge.ControllerStore.Types.{role_operator, role_admin}
use picobridge.ControllerStore.Admin.{add, revoke}
use picobridge.ControllerStore.Check.{IsKey}
use picobridge.ControllerStore.Change.{add-AddOutcome, revoke-RevokeOutcome}
use picobridge.ControllerStore.Trust.{add-IsTrusted, revoke-IsTrusted}
use picobridge.ControllerStore.Flash.{Board, is_ok, timed_out}
use picobridge.ControllerStore.Flash.Sequence.{IsBoard}
use picobridge.RadioConfig.Flash.{write_and_verify, clear}
use picobridge.Bridge.{Machine, World}
use picobridge.Bridge.Handlers.{
  Command, stage, confirm, cancel, tick, controller_add, controller_revoke, set_radio, clear_radio,
  other, command_of, by_admin, caller_of, write_image, answered, armed, net_query, run_command,
  handle_authenticated_command, handle_controller_add, handle_controller_revoke, handle_set_radio,
  handle_clear_radio,
}
use picobridge.Bridge.Sound.{IsSound, candidate-IsSound}
use picobridge.Bridge.Sound.Pieces.{
  with_radio-IsSound, stage-IsSound, confirm-IsSound, cancel-IsSound, tick-IsSound, added_next,
  revoked_next,
}

module _ (late : Bool) (board : Board) (w : World) (m : Machine) (p : List ℕ)
    (honest : w.granted ≡ timed_out → late ≡ true) (b : IsBoard board) (hb : All IsByte p)
    (v : IsSound late m) (room : m.controllers.generation + 1 < 2 ^ 32) where
  add-IsSound : IsSound late (handle_controller_add board w m p).1
  unfolding handle_controller_add
  add-IsSound = elim (Bool-cases (not (length p == 34) || not (by_admin m))) [
    | inl denied ↦ rw denied v
    | inr allowed ↦
        elim (Bool-cases
          (not (get_or p 1 0 == role_operator) && not (get_or p 1 0 == role_admin))) [
            | inl unknown ↦ rw (allowed, unknown) v
            | inr known ↦
                elim (Bool-cases
                  (is_ok (add m.controllers (caller_of m) (drop 2 p) (get_or p 1 0)).status)) [
                    | inr bad ↦ rw (allowed, known, bad) v
                    | inl good ↦
                        let sized : length p ≡ 34 = ground arith in
                        let key : IsKey (drop 2 p) = record {
                          size = omega (arith, length-drop 2 p);
                          bytes = All-drop IsByte 2 p hb;
                        } in
                        rw (allowed, known, good)
                          (candidate-IsSound late board w m _ honest b v
                            (add-IsTrusted m.controllers (caller_of m) (drop 2 p) (get_or p 1 0)
                              v.trusted key)
                            (added_next m.controllers (caller_of m) (drop 2 p) (get_or p 1 0) room
                              good
                              (add-AddOutcome m.controllers (caller_of m) (drop 2 p) (get_or p 1 0)
                                v.trusted key)))
                  ]
          ]
  ]

  revoke-IsSound : IsSound late (handle_controller_revoke board w m p).1
  unfolding handle_controller_revoke
  revoke-IsSound = elim (Bool-cases (not (length p == 2) || not (by_admin m))) [
    | inl denied ↦ rw denied v
    | inr allowed ↦ elim (Bool-cases (get_or p 1 0 == caller_of m)) [
      | inl own ↦ rw (allowed, own) v
      | inr another ↦
          elim (Bool-cases (is_ok (revoke m.controllers (caller_of m) (get_or p 1 0)).0)) [
            | inr bad ↦ rw (allowed, another, bad) v
            | inl good ↦
                rw (allowed, another, good)
                  (candidate-IsSound late board w m _ honest b v
                    (revoke-IsTrusted m.controllers (caller_of m) (get_or p 1 0) v.trusted)
                    (revoked_next m.controllers (caller_of m) (get_or p 1 0) room good
                      (revoke-RevokeOutcome m.controllers (caller_of m) (get_or p 1 0))))
          ]
    ]
  ]

  set_radio-IsSound : IsSound late (handle_set_radio board w m p).1
  unfolding handle_set_radio write_image
  set_radio-IsSound = elim (Bool-cases (ltb (length p) 3)) [
    | inl short ↦ rw short v
    | inr long ↦ elim (Bool-cases (by_admin m)) [
      | inr denied ↦ rw (long, denied) v
      | inl allowed ↦ elim (Bool-cases w.mounted) [
        | inl mounted ↦ rw (long, allowed, mounted) v
        | inr alone ↦ elim (Bool-cases (length p == u16 (3 + get_or p 1 0 + get_or p 2 0))) [
          | inr wrong ↦ rw (long, allowed, alone, wrong) v
          | inl sized ↦ rw (long, allowed, alone, sized) (written _)
        ]
      ]
    ]
  ]
    where
      written : (image : Option (List ℕ)) → IsSound late (write_image board w m image).1
      written none = unfold write_image in v
      written (some image) =
          unfold write_image in
          with_radio-IsSound board w m (write_and_verify board m.radio image w.granted) v

  clear_radio-IsSound : IsSound late (handle_clear_radio board w m).1
  unfolding handle_clear_radio
  clear_radio-IsSound = elim (Bool-cases (by_admin m)) [
    | inr denied ↦ rw denied v
    | inl allowed ↦ elim (Bool-cases w.mounted) [
      | inl mounted ↦ rw (allowed, mounted) v
      | inr alone ↦
          rw (allowed, alone) (with_radio-IsSound board w m (clear board m.radio w.granted) v)
    ]
  ]

  armed-IsSound : (r : Status × Machine) → IsSound late r.1 → IsSound late (armed r).1
  armed-IsSound r x = record {
    core = x.core;
    trusted = x.trusted;
    boots = x.boots;
    buffer = x.buffer;
  }

  answered-IsSound : (o : Option ℕ) → IsSound late (answered m o).1
  answered-IsSound none = record {
    core = v.core;
    trusted = v.trusted;
    boots = v.boots;
    buffer = v.buffer;
  }
  answered-IsSound (some b) = record {
    core = v.core;
    trusted = v.trusted;
    boots = v.boots;
    buffer = v.buffer;
  }

  command-IsSound : (c : Command) → IsSound late (run_command board w c m p).1
  unfolding run_command
  command-IsSound stage = armed-IsSound _ (stage-IsSound m p hb v)
  command-IsSound confirm = armed-IsSound _ (confirm-IsSound m p v)
  command-IsSound cancel = armed-IsSound _ (cancel-IsSound m p v)
  command-IsSound tick = armed-IsSound _ (tick-IsSound m p v)
  command-IsSound controller_add = armed-IsSound _ add-IsSound
  command-IsSound controller_revoke = armed-IsSound _ revoke-IsSound
  command-IsSound set_radio = armed-IsSound _ set_radio-IsSound
  command-IsSound clear_radio = armed-IsSound _ clear_radio-IsSound
  command-IsSound other =
      elim w.diagnostics
        as (λ d.
          IsSound late
            (elim d as (λ x. Bool × Machine) [
              | none ↦ answered m none
              | some x ↦ answered m (net_query x p)
            ]).1) [ none ↦ answered-IsSound none | some d ↦ answered-IsSound (net_query d p) ]

pub authenticated-IsSound :
    (late : Bool) (board : Board) (w : World) (m : Machine) (p : List ℕ)
    → (w.granted ≡ timed_out → late ≡ true)
    → IsBoard board
    → All IsByte p
    → IsSound late m
    → m.controllers.generation + 1 < 2 ^ 32
    → IsSound late (handle_authenticated_command board w m p).1
unfolding handle_authenticated_command
authenticated-IsSound late board w m [] honest b hb v room = record {
  core = v.core;
  trusted = v.trusted;
  boots = v.boots;
  buffer = v.buffer;
}
authenticated-IsSound late board w m (x ∷ p) honest b hb v room =
    command-IsSound late board w m (x ∷ p) honest b hb v room (command_of x)
