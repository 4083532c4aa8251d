-- ===== src/BridgeCore/Utf8/Encode.antt =====
-- UTF-8 as the standard defines it, independent of the decoder: which numbers are scalar values,
-- and the bytes of each.
use picobridge.Prelude.{ℕ, ◌+◌, ◌/◌, ◌%◌, ◌≤◌, ◌<◌, ◌⊎◌, List, [], ◌∷◌, ◌++◌, ltb, if◌then◌else◌}

-- A Unicode scalar value: a code point that is no surrogate.
abbrev pub IsScalarValue : ℕ → Type 0
IsScalarValue cp = (cp ≤ 0x10ffff) × ((cp < 0xd800) ⊎ (0xdfff < cp))

abbrev pub IsByte : ℕ → Type 0
IsByte b = b < 256

unfoldable pub lead_byte : ℕ → ℕ
lead_byte cp =
    if ltb cp 0x80
    then cp
    else if ltb cp 0x800
    then 0xc0 + cp / 64
    else if ltb cp 0x10000
    then 0xe0 + cp / 4096
    else 0xf0 + cp / 262144

unfoldable pub trail_bytes : ℕ → List ℕ
trail_bytes cp =
    if ltb cp 0x80
    then []
    else if ltb cp 0x800
    then (0x80 + cp % 64) ∷ []
    else if ltb cp 0x10000
    then (0x80 + cp / 64 % 64) ∷ (0x80 + cp % 64) ∷ []
    else (0x80 + cp / 4096 % 64) ∷ (0x80 + cp / 64 % 64) ∷ (0x80 + cp % 64) ∷ []

-- The bytes of a text.
abbrev pub encode : List ℕ → List ℕ
encode [] = []
encode (cp ∷ cps) = lead_byte cp ∷ (trail_bytes cp ++ encode cps)
