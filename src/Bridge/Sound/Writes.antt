-- ===== src/Bridge/Sound/Writes.antt =====
-- Frames and writes in firmware/bridge_main.c keep the machine sound.
use picobridge.Prelude.{
  ℕ, ◌+◌, ◌/◌, ◌≤◌, ◌<◌, ◌^◌, ◌≡◌, inl, inr, refl, sym, arith, Bool, true, false, not, none, some,
  List, [], ◌∷◌, ◌++◌, length, length-append, ltb, ◌==◌, Bool-cases, if◌then◌else◌, All,
}
use mathlib.Core.Path.{subst}
use picobridge.BridgeCore.Utf8.Encode.{IsByte}
use picobridge.BridgeCore.Invariant.{IsValid}
use picobridge.ControllerStore.Valid.{IsTrusted}
use picobridge.ControllerStore.Flash.{Board, timed_out}
use picobridge.ControllerStore.Flash.Sequence.{IsBoard}
use picobridge.NoiseIk.{Crypto, Session}
use picobridge.Bridge.{Machine, World, ble_cmd_buf_max}
use picobridge.Bridge.Frames.{
  cmd_noise, transport_response_max, with_session, process_frame, publish, handle_command,
  drop_frame, accumulate, write,
}
use picobridge.Bridge.Outcome.{FrameOutcome, ignored, shaken, commanded, frame-FrameOutcome}
use picobridge.Bridge.Sound.{IsSound, Boots}
use picobridge.Bridge.Sound.Commands.{authenticated-IsSound}

-- What a cipher decrypts is bytes.
pub record IsCipher (crypto : Crypto) : Type 0 where
  pub opens_bytes :
      (key nonce ad text tag plaintext : List ℕ)
      → crypto.auth_decrypt key nonce ad text tag ≡ some plaintext
      → All IsByte plaintext

-- Only these parts count.
parts-IsSound :
    {late : Bool} (m m' : Machine)
    → m'.core ≡ m.core
    → m'.controllers ≡ m.controllers
    → m'.flash ≡ m.flash
    → length m'.ble_cmd_buf ≤ ble_cmd_buf_max
    → IsSound late m
    → IsSound late m'
parts-IsSound {late = late} m m' ec es ef buffer v = record {
  core = subst IsValid (sym ec) v.core;
  trusted = subst IsTrusted (sym es) v.trusted;
  boots =
      subst (λ f. Boots late f m'.controllers) (sym ef)
        (subst (Boots late m.flash) (sym es) v.boots);
  buffer = buffer;
}

module _ (late : Bool) (crypto : Crypto) (board : Board) (w : World) (cipher : IsCipher crypto)
    (b : IsBoard board) (honest : w.granted ≡ timed_out → late ≡ true) where
  frame-IsSound :
      (m : Machine) (frame : List ℕ) (resp_cap : ℕ)
      → m.controllers.generation + 1 < 2 ^ 32
      → IsSound late m
      → IsSound late (process_frame crypto board w m frame resp_cap).1
  frame-IsSound m frame resp_cap room v =
      from (process_frame crypto board w m frame resp_cap)
        (frame-FrameOutcome crypto board w m frame resp_cap)
    where
      with-IsSound : (x : Machine) (s : Session) → IsSound late x → IsSound late (with_session x s)
      with-IsSound x s sound = parts-IsSound x (with_session x s) refl refl refl sound.buffer sound

      from : (r : List ℕ × Machine) → FrameOutcome crypto board w m frame r → IsSound late r.1
      from r (ignored e) = subst (λ (x : List ℕ × Machine). IsSound late x.1) (sym e) v
      from r (shaken message framed sized session e) =
          subst (IsSound late) (sym e) (with-IsSound m session v)
      from r (commanded c) = subst (IsSound late) (sym c.obeyed) (
          with-IsSound _ c.last (
            authenticated-IsSound late board w (with_session m c.session) c.plaintext honest b
              (cipher.opens_bytes _ _ _ _ _ c.plaintext c.opened.genuine)
              (with-IsSound m c.session v) room))

  publish-IsSound :
      (r : List ℕ × Machine) → IsSound late r.1 → IsSound late (publish crypto board w r)
  unfolding publish
  publish-IsSound ([], m) v = v
  publish-IsSound (kind ∷ response, m) v =
      elim (Bool-cases
        (ltb ble_cmd_buf_max (length (if kind == cmd_noise then response else kind ∷ response)))) [
          | inl long ↦ rw long v
          | inr fits ↦ rw fits (parts-IsSound m _ refl refl refl v.buffer v)
        ]

  drop-IsSound : (m : Machine) → IsSound late m → IsSound late (drop_frame crypto board w m)
  drop-IsSound m v = parts-IsSound m _ refl refl refl (omega arith) v

  handle-IsSound :
      (m : Machine) (bytes : List ℕ)
      → m.controllers.generation + 1 < 2 ^ 32
      → IsSound late m
      → IsSound late (handle_command crypto board w m bytes)
  unfolding handle_command
  handle-IsSound m bytes room v = publish-IsSound _ (
      frame-IsSound _ bytes transport_response_max room
        (parts-IsSound m (record m { cmd_char_read = none }) refl refl refl v.buffer v))

  accumulate-IsSound :
      (m : Machine) (more : Bool) (bytes : List ℕ)
      → m.controllers.generation + 1 < 2 ^ 32
      → IsSound late m
      → IsSound late (accumulate crypto board w m more bytes)
  unfolding accumulate
  accumulate-IsSound m more bytes room v =
      elim (Bool-cases (ltb ble_cmd_buf_max (length m.ble_cmd_buf + length bytes))) [
        | inl long ↦ rw long (drop-IsSound m v)
        | inr fits ↦
            let filled : IsSound late (record m { ble_cmd_buf = m.ble_cmd_buf ++ bytes }) =
              parts-IsSound m _ refl refl refl (ground (arith, length-append m.ble_cmd_buf bytes))
                v in
            elim (Bool-cases more) [
              | inl on ↦ rw (fits, on) filled
              | inr end ↦ rw (fits, end) (drop-IsSound _ (handle-IsSound _ _ room filled))
            ]
      ]

  later-IsSound :
      (m : Machine) (active more : Bool) (bytes : List ℕ)
      → m.controllers.generation + 1 < 2 ^ 32
      → IsSound late m
      → IsSound late (if not active then m else accumulate crypto board w m more bytes)
  later-IsSound m true more bytes room v = accumulate-IsSound m more bytes room v
  later-IsSound m false more bytes room v = v

  -- Any write of the characteristic, of any bytes, leaves a sound machine sound: the core and the
  -- controllers are in order, the flash boots the controllers that are in memory, and the reassembly
  -- is within its buffer. Only when a call of `flash_safe_execute` has timed out, in this write or
  -- before, the flash may boot a trusted successor of the controllers in memory, one generation on.
  -- The board must work as its manual says, the cipher decrypt to bytes, and the generation of the
  -- controllers not be at its end.
  pub write-IsSound :
      (m : Machine) (fragment : List ℕ)
      → m.controllers.generation + 1 < 2 ^ 32
      → IsSound late m
      → IsSound late (write crypto board w m fragment)
  unfolding write
  write-IsSound m [] room v = v
  write-IsSound m (header ∷ bytes) room v =
      let start : IsSound late (record m { ble_cmd_active = true; ble_cmd_buf = [] }) =
        parts-IsSound m _ refl refl refl (omega arith) v in
      elim (Bool-cases (header / 2 == 0)) [
        | inl first ↦ elim (Bool-cases (length bytes == 0)) [
          | inl nothing ↦ rw (first, nothing) (drop-IsSound m v)
          | inr something ↦ rw (first, something) (accumulate-IsSound _ _ bytes room start)
        ]
        | inr later ↦ rw later (later-IsSound m m.ble_cmd_active _ bytes room v)
      ]
