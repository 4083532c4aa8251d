-- ===== src/BridgeCore/Keymap.antt =====
-- `map_ascii` and `map_de` of firmware/core/bridge_core.c: from a code point to a keystroke.
-- `*stroke` goes in and comes out beside the status.
pub mod Hosts
pub mod Faithful
use picobridge.Prelude.{ℕ, ◌+◌, ◌-◌, ◌&&◌, ◌||◌, List, [], ◌∷◌, leb, ◌==◌, if◌then◌else◌}
use picobridge.Prelude.Text.{codes}
use picobridge.BridgeCore.Types.{Status, ok, err_unsupported, Stroke, mod_left_shift}

abbrev pub stroke_of : ℕ → ℕ → Stroke
stroke_of modifier usage = record { modifier = modifier; usage = usage }

abbrev pub plain : List ℕ
plain = codes "`1234567890-=[]\\;',./"

abbrev pub shifted : List ℕ
shifted = codes "~!@#$%^&*()_+{}|:\"<>?"

abbrev pub usages : List ℕ
usages =
    53 ∷ 30 ∷ 31 ∷ 32 ∷ 33 ∷ 34 ∷ 35 ∷ 36 ∷ 37 ∷ 38 ∷ 39 ∷ 45 ∷ 46 ∷ 47 ∷ 48 ∷ 49 ∷ 51 ∷ 52 ∷ 54
    ∷ 55 ∷ 56 ∷ []

-- The loop over the three tables.
unfoldable pub map_symbol : ℕ → List ℕ → List ℕ → List ℕ → Stroke → Status × Stroke
map_symbol cp (p ∷ ps) (s ∷ ss) (u ∷ us) stroke =
    if cp == p || cp == s
    then (ok, stroke_of (if cp == s then mod_left_shift else 0) u)
    else map_symbol cp ps ss us stroke
map_symbol cp _ _ _ stroke = (err_unsupported, stroke)

unfoldable pub map_ascii : ℕ → Stroke → Status × Stroke
map_ascii cp stroke0 =
    let stroke = record stroke0 { modifier = 0 } in
    if leb b'a' cp && leb cp b'z'
    then (ok, record stroke { usage = cp - b'a' + 4 })
    else if leb b'A' cp && leb cp b'Z'
    then (ok, record stroke { modifier = mod_left_shift; usage = cp - b'A' + 4 })
    else if cp == b' '
    then (ok, record stroke { usage = 44 })
    else map_symbol cp plain shifted usages stroke

abbrev pub symbols : List ℕ
symbols = codes "!\"#$%&'()*+,-./:;<=>?@[\\]^_`{|}~"

abbrev pub keys : List Stroke
keys =
    stroke_of 2 30
    ∷ stroke_of 2 31
    ∷ stroke_of 0 50
    ∷ stroke_of 2 33
    ∷ stroke_of 2 34
    ∷ stroke_of 2 35
    ∷ stroke_of 2 50
    ∷ stroke_of 2 37
    ∷ stroke_of 2 38
    ∷ stroke_of 2 48
    ∷ stroke_of 0 48
    ∷ stroke_of 0 54
    ∷ stroke_of 0 56
    ∷ stroke_of 0 55
    ∷ stroke_of 2 36
    ∷ stroke_of 2 55
    ∷ stroke_of 2 54
    ∷ stroke_of 0 100
    ∷ stroke_of 2 39
    ∷ stroke_of 2 100
    ∷ stroke_of 2 45
    ∷ stroke_of 64 20
    ∷ stroke_of 64 37
    ∷ stroke_of 64 45
    ∷ stroke_of 64 38
    ∷ stroke_of 0 53
    ∷ stroke_of 2 56
    ∷ stroke_of 2 46
    ∷ stroke_of 64 36
    ∷ stroke_of 64 100
    ∷ stroke_of 64 39
    ∷ stroke_of 64 48
    ∷ []

-- The table `unicode`, as its code points and their strokes.
abbrev pub unicode_points : List ℕ
unicode_points = 0xe4 ∷ 0xf6 ∷ 0xfc ∷ 0xc4 ∷ 0xd6 ∷ 0xdc ∷ 0xdf ∷ 0x20ac ∷ 0xb4 ∷ []

abbrev pub unicode_strokes : List Stroke
unicode_strokes =
    stroke_of 0 52
    ∷ stroke_of 0 51
    ∷ stroke_of 0 47
    ∷ stroke_of 2 52
    ∷ stroke_of 2 51
    ∷ stroke_of 2 47
    ∷ stroke_of 0 45
    ∷ stroke_of 64 8
    ∷ stroke_of 0 46
    ∷ []

-- A loop over a table that returns at the first hit; `other` is what follows the loop.
unfoldable pub find_stroke : ℕ → List ℕ → List Stroke → Status × Stroke → Status × Stroke
find_stroke cp (c ∷ cs) (k ∷ ks) other = if cp == c then (ok, k) else find_stroke cp cs ks other
find_stroke cp _ _ other = other

-- The German layout exchanges y and z.
abbrev pub swap_yz : ℕ → ℕ
swap_yz cp =
    if cp == b'y'
    then b'z'
    else if cp == b'Y'
    then b'Z'
    else if cp == b'z'
    then b'y'
    else if cp == b'Z'
    then b'Y'
    else cp

unfoldable pub map_de : ℕ → Stroke → Status × Stroke
map_de cp stroke =
    find_stroke cp symbols keys
      (find_stroke cp unicode_points unicode_strokes (map_ascii (swap_yz cp) stroke))
