-- ===== src/BridgeCore/Keymap/Hosts.antt =====
-- What a host shows for a keystroke, by the key legends of the two layouts: the other side of
-- `map_ascii` and `map_de`, taken from the USB usage tables and the keyboards, not from the code.
use picobridge.Prelude.{
  ℕ, ◌+◌, ◌≡◌, refl, Bool, true, false, ◌&&◌, ◌||◌, List, [], ◌∷◌, ltb, ◌==◌, if◌then◌else◌,
}
use picobridge.Prelude.Bits.{every}
use picobridge.Prelude.Text.{codes}
use picobridge.BridgeCore.Types.{Status, ok, Stroke, no_stroke}
use picobridge.BridgeCore.Keymap.{map_ascii, map_de, find_stroke, map_symbol}

-- The characters of one key: alone, with Shift, and with the right Alt key. 0 stands for none.
record Key : Type 0 where
  usage : ℕ
  alone : ℕ
  with_shift : ℕ
  with_alt : ℕ

abbrev key : ℕ → ℕ → ℕ → ℕ → Key
key usage alone with_shift with_alt = record {
  usage = usage;
  alone = alone;
  with_shift = with_shift;
  with_alt = with_alt;
}

-- The character that a stroke asks of a key. Modifiers are 0, left Shift and right Alt.
abbrev shown : Key → ℕ → ℕ
shown k modifier =
    if modifier == 0
    then k.alone
    else if modifier == 2
    then k.with_shift
    else if modifier == 64
    then k.with_alt
    else 0

press : List Key → Stroke → ℕ
press [] s = 0
press (k ∷ ks) s = if k.usage == s.usage then shown k s.modifier else press ks s

-- The letter keys, usages 4 to 29.
abbrev letters : ℕ → List ℕ → List ℕ → List Key → List Key
letters u (a ∷ more_alone) (b ∷ more_shift) more =
    key u a b 0 ∷ letters (u + 1) more_alone more_shift more
letters u _ _ more = more

-- Enter and Tab.
abbrev controls : List Key
controls = key 40 b'\n' 0 0 ∷ key 43 b'\t' 0 0 ∷ []

abbrev us_keys : List Key
us_keys =
    letters 4 (codes "abcdefghijklmnopqrstuvwxyz1234567890")
      (codes "ABCDEFGHIJKLMNOPQRSTUVWXYZ!@#$%^&*()")
      (key 44 b' ' 0 0
        ∷ letters 45 (codes "-=[]\\") (codes "_+{}|")
            (letters 51 (codes ";'`,./") (codes ":\"~<>?") controls))

abbrev de_keys : List Key
de_keys =
    key 8 b'e' b'E' 0x20ac
    ∷ key 20 b'q' b'Q' b'@'
    ∷ key 28 b'z' b'Z' 0
    ∷ key 29 b'y' b'Y' 0
    ∷ key 36 b'7' b'/' b'{'
    ∷ key 37 b'8' b'(' b'['
    ∷ key 38 b'9' b')' b']'
    ∷ key 39 b'0' b'=' b'}'
    ∷ key 44 b' ' 0 0
    ∷ key 45 0xdf b'?' b'\\'
    ∷ key 46 0xb4 b'`' 0
    ∷ key 47 0xfc 0xdc 0
    ∷ key 48 b'+' b'*' b'~'
    ∷ key 50 b'#' b'\'' 0
    ∷ key 51 0xf6 0xd6 0
    ∷ key 52 0xe4 0xc4 0
    ∷ key 53 b'^' 0xb0 0
    ∷ key 54 b',' b';' 0
    ∷ key 55 b'.' b':' 0
    ∷ key 56 b'-' b'_' 0
    ∷ key 100 b'<' b'>' b'|'
    ∷ letters 4 (codes "abcdefghijklmnopqrstuvwxyz123456")
        (codes "ABCDEFGHIJKLMNOPQRSTUVWXYZ!\"§$%&") controls

unfoldable pub host_us : Stroke → ℕ
unfolding press
host_us s = press us_keys s

unfoldable pub host_de : Stroke → ℕ
unfolding press
host_de s = press de_keys s

-- The strokes that wait for the next key on a German keyboard: the acute and the grave accent on one
-- key, the circumflex on its own, and the tilde with the right Alt key.
unfoldable pub dead_de : Stroke → Bool
dead_de s =
    if s.usage == 46
    then s.modifier == 0 || s.modifier == 2
    else if s.usage == 53
    then s.modifier == 0
    else s.usage == 48 && s.modifier == 64

-- A mapping and a host agree on a character: it is refused, or its stroke shows it.
abbrev pub agrees : (Stroke → ℕ) → Status × Stroke → ℕ → Bool
agrees host (ok, s) cp = host s == cp
agrees host (_, s) cp = true

abbrev pub is_ok : Status × Stroke → Bool
is_ok (ok, s) = true
is_ok (_, s) = false

pub us_table : every 256 (λ cp. agrees host_us (map_ascii cp no_stroke) cp) ≡ true
unfolding every host_us map_ascii map_symbol
us_table = refl

pub de_table : every 256 (λ cp. agrees host_de (map_de cp no_stroke) cp) ≡ true
unfolding every host_de map_de map_ascii find_stroke map_symbol
de_table = refl

pub printable_table :
    every 127 (λ cp. ltb cp 32 || (is_ok (map_ascii cp no_stroke) && is_ok (map_de cp no_stroke)))
    ≡ true
unfolding every map_de map_ascii find_stroke map_symbol
printable_table = refl

pub euro : agrees host_de (map_de 0x20ac no_stroke) 0x20ac ≡ true
unfolding host_de map_de find_stroke
euro = refl
