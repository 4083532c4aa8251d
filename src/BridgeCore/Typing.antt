-- ===== src/BridgeCore/Typing.antt =====
-- What a text types, as a function of its code points: the specification of the staging loop of
-- firmware/core/bridge_core.c, with no buffer, cursor or byte in it.
pub mod Cells
pub mod DeadKeys
pub mod Host
pub mod Loop
pub mod Stage
pub mod Sound
pub mod Accept
use picobridge.Prelude.{ℕ, Bool, ◌&&◌, ◌||◌, List, [], ◌∷◌, ◌++◌, false, ltb, ◌==◌, if◌then◌else◌}
use picobridge.BridgeCore.Types.{Status, ok, err_policy, Stroke, no_stroke}
use picobridge.BridgeCore.Keymap.{stroke_of}
use picobridge.BridgeCore.Stage.{Options, allows_lf, allows_tab, is_dead, map_key}

-- The strokes of a text, or the status of the first character that is refused.
pub data Typed : Type 0 where
  typed : List Stroke → Typed
  refused : Status → Typed

abbrev pub enter : Stroke
enter = stroke_of 0 0x28

abbrev pub tab : Stroke
tab = stroke_of 0 0x2b

abbrev pub space : Stroke
space = stroke_of 0 44

-- A mapped key, with the space that a dead key takes.
unfoldable pub type_key : Options → ℕ → Status × Stroke → Typed
type_key o cp (ok, stroke) = typed (if is_dead o cp then stroke ∷ space ∷ [] else stroke ∷ [])
type_key o cp (status, stroke) = refused status

unfoldable pub type_char : Options → ℕ → Typed
unfolding type_key
type_char o cp =
    if ltb cp 32 || cp == 127
    then (if cp == b'\n' && allows_lf o
        then typed (enter ∷ [])
        else if cp == b'\t' && allows_tab o
        then typed (tab ∷ [])
        else refused err_policy)
    else type_key o cp (map_key o cp no_stroke)

abbrev pub after : List Stroke → Typed → Typed
after out (typed ks) = typed (out ++ ks)
after out (refused status) = refused status

-- Strokes of one character, then those of the rest.
abbrev pub then_type : Typed → Typed → Typed
then_type (typed ks) rest = after ks rest
then_type (refused status) rest = refused status

unfoldable pub type_chars : Options → List ℕ → Typed
unfolding type_char
type_chars o [] = typed []
type_chars o (cp ∷ cps) = then_type (type_char o cp) (type_chars o cps)

abbrev pub heads_lf : List ℕ → Bool
heads_lf [] = false
heads_lf (cp ∷ cps) = cp == b'\n'

-- Each CR that an LF follows is dropped.
unfoldable pub fold_crlf : List ℕ → List ℕ
fold_crlf [] = []
fold_crlf (cp ∷ cps) =
    let rest = fold_crlf cps in if cp == b'\r' && heads_lf cps then rest else cp ∷ rest

unfoldable pub type_text : Options → List ℕ → Typed
unfolding type_chars fold_crlf
type_text o cps = type_chars o (if allows_lf o then fold_crlf cps else cps)
