-- ===== src/BridgeCore/Tests.antt =====
-- Runs of the core on small inputs, and the theorems at concrete inputs.
use picobridge.Prelude.{
  ℕ, ◌≡◌, ◌≢◌, refl, arith, List, [], ◌∷◌, ◌++◌, none, some, take, true, false, if◌then◌else◌, drop,
}
use picobridge.BridgeCore.Types.{
  layout_de, mode_text, ok, Stroke, Core, executing, completed, terminate,
}
use picobridge.BridgeCore.Utf8.{decode_utf8, decode_tail, check_range, continue_utf8, decoded}
use picobridge.BridgeCore.Utf8.Encode.{encode, lead_byte, trail_bytes}
use picobridge.BridgeCore.Utf8.RoundTrip.{decode-encode, decode-IsEncoding, IsEncoding}
use picobridge.BridgeCore.Keymap.{stroke_of, map_ascii, map_de, map_symbol, find_stroke}
use picobridge.BridgeCore.Stage
use picobridge.BridgeCore.Stage.{
  init, Request, Options, refusal, bad_argument, bad_policy, is_replay, bytes_of, map_key, is_busy,
}
use picobridge.BridgeCore.Typing.{typed, space, type_text, fold_crlf}
use picobridge.BridgeCore.Typing.Host.{read_back, read_back-type_text}
use picobridge.BridgeCore.Typing.Stage.{job, staging, stage-staging}
use picobridge.BridgeCore.Typing.Accept.{IsStaging, stage-ok-IsStaging}
use picobridge.BridgeCore.Typing.Cells.{cells}
use picobridge.BridgeCore.Outcome.{StageOutcome, stage-StageOutcome}
use picobridge.BridgeCore.Invariant.{IsValid}
use picobridge.BridgeCore.Invariant.Ops.{init-IsValid}
use picobridge.BridgeCore.Commands.{stage, confirm, cancel, tick, next, run, strokes_of}
use picobridge.BridgeCore.Safety.{run-IsValid, stage_once}
use picobridge.BridgeCore.Confirm.{no_strokes_unconfirmed}
use picobridge.BridgeCore.Expiry.{never_late}
use picobridge.BridgeCore.Drain.{nexts, drain_lem}
use picobridge.BridgeCore.EndToEnd.{session, session_types_text}

abbrev german : Options
german = record { layout = layout_de; mode = mode_text; flags = 1 }

-- The text z^ and an LF after a CR.
abbrev greeting_text : List ℕ
greeting_text = b'z' ∷ b'^' ∷ b'\r' ∷ b'\n' ∷ []

abbrev greeting : Request
greeting = record {
  owner = 7;
  id = 1;
  options = german;
  utf8 = some greeting_text;
  length = 4;
  ttl_ms = 100;
}

abbrev greeting_keys : List Stroke
greeting_keys = stroke_of 0 28 ∷ stroke_of 0 53 ∷ space ∷ stroke_of 0 40 ∷ []

greeting_passes : refusal init greeting ≡ none
unfolding init refusal bad_argument bad_policy is_replay
greeting_passes = refl

greeting_encoded : bytes_of greeting ≡ encode greeting_text
unfolding lead_byte trail_bytes
greeting_encoded = refl

greeting_types : type_text german greeting_text ≡ typed greeting_keys
unfolding type_text map_key map_de map_ascii find_stroke map_symbol
greeting_types = refl

init_idle : is_busy init.state ≡ false
unfolding init is_busy
init_idle = refl

session_types_text_example :
    (strokes_of init (session greeting 5 20 (21 ∷ 22 ∷ 23 ∷ 24 ∷ []) 25) ≡ greeting_keys)
    × (run init (session greeting 5 20 (21 ∷ 22 ∷ 23 ∷ 24 ∷ []) 25)
        ≡ terminate (job init greeting 5 greeting_keys) completed)
session_types_text_example =
    session_types_text init greeting 5 20 greeting_text greeting_keys init_idle greeting_passes
      greeting_encoded (omega arith) greeting_types (omega arith) (21 ∷ 22 ∷ 23 ∷ 24 ∷ []) 25 refl

read_back-type_text_example :
    read_back (λ s t. []) german greeting_keys
    ≡ (if true then fold_crlf greeting_text else greeting_text)
read_back-type_text_example =
    read_back-type_text (λ s t. []) german greeting_text greeting_keys greeting_types

stage-staging_example :
    Stage.stage init greeting 5 ≡ staging init greeting 5 (type_text german greeting_text)
stage-staging_example =
    stage-staging init greeting 5 greeting_text init_idle greeting_passes greeting_encoded
      (omega arith)

greeting_staged : Stage.stage init greeting 5 ≡ (ok, job init greeting 5 greeting_keys)
greeting_staged = rw greeting_types at stage-staging_example

stage-ok-IsStaging_example : IsStaging init greeting 5 (job init greeting 5 greeting_keys)
stage-ok-IsStaging_example =
    stage-ok-IsStaging init greeting 5 (omega arith) (job init greeting 5 greeting_keys)
      greeting_staged

stage-StageOutcome_example : StageOutcome init greeting 5 (Stage.stage init greeting 5)
stage-StageOutcome_example = stage-StageOutcome init greeting 5 (omega arith)

stage_once_example :
    (Stage.stage (run (Stage.stage init greeting 5).1 (cancel 7 1 ∷ [])) greeting 9).0 ≢ ok
stage_once_example =
    stage_once init greeting 5 (cancel 7 1 ∷ []) greeting 9 (omega arith) (omega arith) (tt, tt)
      (rw greeting_staged refl) refl refl

init_waits : init.state ≢ executing
unfolding init
init_waits e = cc

no_strokes_unconfirmed_example : strokes_of init (stage greeting 5 ∷ next 6 ∷ tick 7 ∷ []) ≡ []
no_strokes_unconfirmed_example =
    no_strokes_unconfirmed init (stage greeting 5 ∷ next 6 ∷ tick 7 ∷ []) (omega arith)
      (tt, (tt, (tt, tt))) init_waits

run-IsValid_example : IsValid (run init (stage greeting 5 ∷ confirm 7 1 6 ∷ next 7 ∷ []))
run-IsValid_example =
    run-IsValid init (stage greeting 5 ∷ confirm 7 1 6 ∷ next 7 ∷ []) (omega arith) init-IsValid

never_late_example :
    (strokes_of (job init greeting 5 greeting_keys) (confirm 7 1 105 ∷ next 106 ∷ []) ≡ [])
    × ((run (job init greeting 5 greeting_keys) (confirm 7 1 105 ∷ next 106 ∷ [])).state
        ≢ executing)
never_late_example =
    never_late (job init greeting 5 greeting_keys) (confirm 7 1 105 ∷ next 106 ∷ []) refl
      (omega arith, (omega arith, tt))

decode-encode_example : decode_utf8 0xe2 (0x82 ∷ 0xac ∷ 0x21 ∷ []) ≡ decoded ok 0x20ac (0x21 ∷ [])
unfolding lead_byte trail_bytes
decode-encode_example = decode-encode 0x20ac (0x21 ∷ []) (omega arith)

decode-IsEncoding_example : IsEncoding 0xe2 (0x82 ∷ 0xac ∷ []) (decode_utf8 0xe2 (0x82 ∷ 0xac ∷ []))
decode-IsEncoding_example =
    decode-IsEncoding 0xe2 (0x82 ∷ 0xac ∷ []) (omega arith) (omega arith) good
  where
    good : (decode_utf8 0xe2 (0x82 ∷ 0xac ∷ [])).status ≡ ok
    good = unfold decode_utf8 decode_tail check_range continue_utf8 in refl

abbrev ready : Core
ready = record (job init greeting 5 greeting_keys) { state = executing }

drain_lem_example :
    (strokes_of ready (nexts (6 ∷ 7 ∷ 8 ∷ 9 ∷ []) ++ next 10 ∷ [])
      ≡ take 4 (drop 0 (cells greeting_keys)))
    × (run ready (nexts (6 ∷ 7 ∷ 8 ∷ 9 ∷ []) ++ next 10 ∷ []) ≡ terminate ready completed)
drain_lem_example = drain_lem ready (6 ∷ 7 ∷ 8 ∷ 9 ∷ []) 10 refl refl (omega arith)
