-- ===== src/BridgeCore/Utf8.antt =====
-- `decode_utf8` of firmware/core/bridge_core.c. The pair `input`, `*offset` is the list of the
-- bytes from the offset on, so `length - *offset` is the length of that list.
pub mod Encode
pub mod Steps
pub mod RoundTrip
use picobridge.Prelude.{
  ℕ, zero, suc, ◌&&◌, ◌||◌, List, [], ◌∷◌, length, ltb, leb, ◌==◌, if◌then◌else◌, bit_and, bit_or,
  u32, ◌<<<◌,
}
use picobridge.BridgeCore.Types.{Status, ok, err_utf8}

-- What a call leaves: its status, `*cp`, and the bytes behind the new offset.
pub record Decoded : Type 0 where
  pub status : Status
  pub cp : ℕ
  pub rest : List ℕ

abbrev pub decoded : Status → ℕ → List ℕ → Decoded
decoded status cp rest = record { status = status; cp = cp; rest = rest }

-- The loop over the continuation bytes, with `left` rounds to go. The list does not end before
-- them, since the length was tested.
unfoldable pub continue_utf8 : ℕ → ℕ → List ℕ → Decoded
continue_utf8 zero cp rest = decoded ok cp rest
continue_utf8 (suc left) cp [] = decoded err_utf8 cp []
continue_utf8 (suc left) cp (byte ∷ rest) =
    if bit_and byte 0xc0 == 0x80
    then continue_utf8 left (u32 (bit_or (cp <<< 6) (bit_and byte 0x3f))) rest
    else decoded err_utf8 cp rest

-- The range test on the finished code point.
unfoldable pub check_range : ℕ → Decoded → Decoded
check_range minimum d = elim d.status [
  | ok ↦
      if ltb d.cp minimum || ltb 0x10ffff d.cp || (leb 0xd800 d.cp && leb d.cp 0xdfff)
      then decoded err_utf8 d.cp d.rest
      else d
  | _ ↦ d
]

unfoldable pub decode_tail : ℕ → ℕ → ℕ → List ℕ → Decoded
decode_tail cp continuation minimum rest =
    if ltb (length rest) continuation
    then decoded err_utf8 cp rest
    else check_range minimum (continue_utf8 continuation cp rest)

-- `lead` is the byte at the offset and `rest` what follows it.
unfoldable pub decode_utf8 : ℕ → List ℕ → Decoded
decode_utf8 lead rest =
    if ltb lead 0x80
    then decoded ok lead rest
    else if leb 0xc2 lead && leb lead 0xdf
    then decode_tail (bit_and lead 0x1f) 1 0x80 rest
    else if leb 0xe0 lead && leb lead 0xef
    then decode_tail (bit_and lead 0x0f) 2 0x800 rest
    else if leb 0xf0 lead && leb lead 0xf4
    then decode_tail (bit_and lead 0x07) 3 0x10000 rest
    else decoded err_utf8 0 rest
