-- ===== src/Bridge/StageFrame.antt =====
-- The frame of a stage command, as firmware/bridge_main.c describes it, and what its handler reads.
use picobridge.Prelude.{
  ℕ, ◌+◌, ◌≤◌, ◌<◌, ◌^◌, ◌≡◌, ◌⊎◌, refl, ap, arith, false, some, List, ◌∷◌, ◌++◌, length, get_or,
  take, drop, ltb, ◌==◌, if◌then◌else◌, u16,
}
use picobridge.BridgeCore.Types.{layout_us, layout_de, mode_password, mode_text, max_ttl_ms}
use picobridge.BridgeCore.Stage
use picobridge.BridgeCore.Stage.{Options, Request}
use picobridge.ControllerStore.Memory.{le_bytes, le_value}
use picobridge.Bridge.{Machine}
use picobridge.Bridge.Handlers.{with_core, word_at, request_of, handle_stage}

-- cmd(1) | owner(4) | id(4) | layout(1) | mode(1) | flags(1) | utf8_len(2) | data(N)
unfoldable pub stage_frame : ℕ → ℕ → Options → List ℕ → List ℕ
stage_frame owner id options text =
    1 ∷ le_bytes 4 owner
    ++ (le_bytes 4 id
        ++ (options.layout ∷ options.mode ∷ options.flags ∷ le_bytes 2 (length text) ++ text))

-- A layout and a mode that the core knows.
pub record IsKnown (options : Options) : Type 0 where
  pub layout : (options.layout ≡ layout_us) ⊎ (options.layout ≡ layout_de)
  pub mode : (options.mode ≡ mode_password) ⊎ (options.mode ≡ mode_text)

module _ (owner id : ℕ) (options : Options) (text : List ℕ) (owner_word : owner < 2 ^ 32)
    (id_word : id < 2 ^ 32) (known : IsKnown options) (short : length text ≤ 1024) where
  abbrev frame : List ℕ
  frame = stage_frame owner id options text

  abbrev pub request : Request
  request = record {
    owner = owner;
    id = id;
    options = options;
    utf8 = some text;
    length = length text;
    ttl_ms = max_ttl_ms;
  }

  owner_same : word_at 1 frame ≡ owner
  unfolding stage_frame le_bytes
  owner_same = unfold le_value in omega (arith, owner_word)

  id_same : word_at 5 frame ≡ id
  unfolding stage_frame le_bytes
  id_same = unfold le_value in omega (arith, id_word)

  layout_same : (if get_or frame 9 0 == 2 then layout_de else layout_us) ≡ options.layout
  unfolding stage_frame le_bytes
  layout_same = ground (arith, known.layout)

  mode_same : (if get_or frame 10 0 == 2 then mode_text else mode_password) ≡ options.mode
  unfolding stage_frame le_bytes
  mode_same = ground (arith, known.mode)

  length_same : le_value (take 2 (drop 12 frame)) ≡ length text
  unfolding stage_frame le_bytes
  length_same = unfold le_value in omega (arith, short)

  request_same : request_of frame ≡ request
  unfolding request_of
  request_same = λ i. record {
    owner = owner_same i;
    id = id_same i;
    options = record { layout = layout_same i; mode = mode_same i; flags = flags_same i };
    utf8 = text_same i;
    length = length_same i;
    ttl_ms = max_ttl_ms;
  }
    where
      flags_same : get_or frame 11 0 ≡ options.flags
      flags_same = unfold stage_frame le_bytes in refl

      text_same : some (drop 14 frame) ≡ some text
      text_same = unfold stage_frame le_bytes in refl

  length-stage_frame : length frame ≡ 14 + length text
  unfolding stage_frame le_bytes
  length-stage_frame = omega arith

  -- The handler of a stage frame stages what was put into the frame: the owner, the id, a known
  -- layout and mode, the flags and the text of up to 1024 bytes, for the longest time to live.
  pub handle_stage-stage_frame :
      (m : Machine)
      → handle_stage m (stage_frame owner id options text)
        ≡ with_core m (Stage.stage m.core request m.ble_now_ms)
  unfolding handle_stage
  handle_stage-stage_frame m =
      let long : ltb (length frame) 14 ≡ false = ground (arith, length-stage_frame) in
      let whole : ltb (length frame) (u16 (14 + length text)) ≡ false =
        ground (arith, length-stage_frame, short) in
      rw (long, length_same, whole)
        (ap (λ r. with_core m (Stage.stage m.core r m.ble_now_ms)) request_same)
