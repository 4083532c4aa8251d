-- ===== src/Bridge/Tests.antt =====
-- Frames, writes and commands of firmware/bridge_main.c at a concrete machine, whose cipher finds the
-- same command in every packet.
use picobridge.Prelude.{
  ℕ, ◌+◌, ◌<◌, ◌^◌, ◌≡◌, refl, arith, inl, inr, true, false, none, some, List, [], ◌∷◌, ◌++◌,
  replicate,
}
use picobridge.Prelude.Text.{codes}
use picobridge.BridgeCore.Stage
use picobridge.BridgeCore.Stage.{Options, init}
use picobridge.BridgeCore.Invariant.Ops.{init-IsValid}
use picobridge.ControllerStore.Store.{initialise, empty, key_is_zero, any_bit}
use picobridge.ControllerStore.Admin.{is_admin}
use picobridge.ControllerStore.Flash.{performed}
use picobridge.ControllerStore.Flash.Scenario.{
  small_board, small_board-IsBoard, first_store, first_store-IsTrusted, flash, flash_boots,
}
use picobridge.NoiseIk.{Crypto, Session, blank_session}
use picobridge.NoiseIk.Transport.{noise_authenticated_slot}
use picobridge.Bridge.{Machine, World}
use picobridge.Bridge.Handlers.{with_core, handle_stage, by_admin}
use picobridge.Bridge.Frames.{process_frame, write}
use picobridge.Bridge.Admin.{stored, only_admins_store}
use picobridge.Bridge.Fragments.{fragments_from, join, write_all, completed, fragments_lem}
use picobridge.Bridge.StageFrame.{stage_frame, handle_stage-stage_frame}
use picobridge.BridgeCore.Types.{executing}
use picobridge.Bridge.Hid.{Usb, Round, drain_loop}
use picobridge.Bridge.Hid.Typed.{IsTyped, drain_loop-IsTyped}
use picobridge.Bridge.Sound.{IsSound, in_memory}
use picobridge.Bridge.Sound.Writes.{IsCipher, write-IsSound}

-- Every packet carries a tick at time 7.
abbrev ticking : Crypto
ticking = record {
  sha256 = λ input. some (replicate 32 1);
  hkdf = λ ck input. some (replicate 64 2);
  x25519 = λ priv public. some (replicate 32 3);
  encrypt_and_tag = λ key nonce ad text. some (text ++ replicate 16 0);
  auth_decrypt = λ key nonce ad text tag. some (4 ∷ 7 ∷ 0 ∷ 0 ∷ 0 ∷ []);
}

ticking-IsCipher : IsCipher ticking
ticking-IsCipher = record { opens_bytes = λ key nonce ad text tag plaintext e. ground (arith, e) }

abbrev world : World
world = record { mounted = true; granted = performed; keypair = none; diagnostics = none }

abbrev session : Session
session = record (blank_session (replicate 32 4)) { ready = true; authenticated_slot = 3 }

abbrev machine : Machine
machine = record {
  core = init;
  controllers = first_store;
  flash = flash;
  radio = [];
  session = session;
  ble_cmd_buf = [];
  ble_cmd_active = false;
  cmd_char_read = none;
  cmd_ack_status = 0;
  ble_now_ms = 0;
}

machine-IsSound : IsSound false machine
machine-IsSound = record {
  core = init-IsValid;
  trusted = first_store-IsTrusted;
  boots = in_memory flash_boots;
  buffer = omega arith;
}

-- An encrypted frame with the first nonce.
abbrev frame : List ℕ
frame = 6 ∷ replicate 8 0 ++ replicate 21 9

no_admin : by_admin machine ≡ false
unfolding is_admin noise_authenticated_slot initialise empty key_is_zero any_bit replicate
no_admin = refl

only_admins_store_example :
    stored (process_frame ticking small_board world machine frame 54).1 ≡ stored machine
only_admins_store_example = only_admins_store ticking small_board world machine frame 54 no_admin

below_last : first_store.generation + 1 < 2 ^ 32
unfolding initialise empty key_is_zero any_bit replicate
below_last = omega arith

write-IsSound_example : IsSound false (write ticking small_board world machine (0 ∷ frame))
write-IsSound_example =
    write-IsSound false ticking small_board world ticking-IsCipher small_board-IsBoard (λ e. cc)
      machine (0 ∷ frame) below_last machine-IsSound

fragments_lem_example :
    write_all ticking small_board world machine (fragments_from 0 (6 ∷ []) ((1 ∷ []) ∷ []))
    ≡ completed ticking small_board world machine (join (6 ∷ []) ((1 ∷ []) ∷ []))
fragments_lem_example =
    fragments_lem ticking small_board world machine (6 ∷ []) ((1 ∷ []) ∷ []) (omega arith)
      (omega arith) (unfold join in omega arith)

abbrev options : Options
options = record { layout = 2; mode = 1; flags = 0 }

handle_stage-stage_frame_example :
    handle_stage machine (stage_frame 7 1 options (codes "zy"))
    ≡ with_core machine (
        Stage.stage init
          (record {
            owner = 7;
            id = 1;
            options = options;
            utf8 = some (codes "zy");
            length = 2;
            ttl_ms = 15000;
          })
          0)
handle_stage-stage_frame_example =
    handle_stage-stage_frame 7 1 options (codes "zy") (omega arith) (omega arith)
      (record { layout = inr refl; mode = inl refl }) (omega arith) machine

-- A keyboard with one stroke left, and a host that takes it.
abbrev keyboard : Usb
keyboard = record {
  core = record init {
    state = executing;
    stroke_count = 1;
    strokes = record { modifier = 0; usage = 4 } ∷ [];
  };
  hid_leds = 0;
  hid_idle_dirty = false;
  usb_now_ms = 5;
  exec_since_ms = 0;
}

abbrev taken : Round
taken = record { pressed = true; polls = []; ready_again = true; released = true }

drain_loop-IsTyped_example : IsTyped (taken ∷ []) keyboard.core (drain_loop (taken ∷ []) keyboard)
drain_loop-IsTyped_example =
    drain_loop-IsTyped (taken ∷ []) keyboard
      (record { pressed = refl; ready_again = refl; released = refl; awake = tt }, tt) refl
      (unfold init in omega arith) (omega arith)
