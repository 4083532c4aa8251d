-- ===== src/BridgeCore/Keymap/Faithful.antt =====
-- Every stroke that the maps give shows its own character on a host of that layout.
use picobridge.Prelude.{
  ℕ, ◌≤◌, ◌<◌, ◌≡◌, ◌≢◌, refl, arith, ap, ◌∙◌, sym, List, [], ◌∷◌, All, ==_iff, true, ltb, ◌||◌,
  ◌&&◌,
}
use native.Mathlib.Decide.{dec_lt, ℕ_discrete}
use picobridge.Prelude.Bits.{every-lt}
use picobridge.BridgeCore.Types.{Status, ok, Stroke, no_stroke}
use picobridge.BridgeCore.Keymap.{
  map_ascii, map_de, find_stroke, map_symbol, symbols, keys, unicode_points, unicode_strokes, plain,
  shifted, usages, swap_yz,
}
use picobridge.BridgeCore.Keymap.Hosts.{
  host_us, host_de, agrees, is_ok, us_table, de_table, printable_table, euro,
}

agrees_shows :
    (host : Stroke → ℕ) (m : Status × Stroke) (cp : ℕ) (s : Stroke)
    → agrees host m cp ≡ true
    → m ≡ (ok, s)
    → host s ≡ cp
agrees_shows host (ok, s') cp s h e =
    ap host (sym (ap (λ (p : Status × Stroke). p.1) e)) ∙ (==_iff (host s') cp).0 h
agrees_shows host (_, s') cp s h e = cc

-- Above 255 only the euro sign has a key.
module _ (cp : ℕ) (large : 256 ≤ cp) where
  map_symbol_miss :
      (ps ss us : List ℕ) (s : Stroke)
      → All (λ c. c < 256) ps
      → All (λ c. c < 256) ss
      → (map_symbol cp ps ss us s).0 ≢ ok
  unfolding map_symbol
  map_symbol_miss [] ss us s hp hs = λ e. cc
  map_symbol_miss (p ∷ ps) [] us s hp hs = λ e. cc
  map_symbol_miss (p ∷ ps) (q ∷ qs) [] s hp hs = λ e. cc
  map_symbol_miss (p ∷ ps) (q ∷ qs) (u ∷ us) s hp hs =
      ground (arith, map_symbol_miss ps qs us s hp.1 hs.1)

  map_ascii_large : (s : Stroke) → (map_ascii cp s).0 ≢ ok
  unfolding map_ascii
  map_ascii_large s = ground (
    arith,
    map_symbol_miss plain shifted usages (record s { modifier = 0 }) (omega arith) (omega arith),
  )

  find_stroke_miss :
      (cs : List ℕ) (ks : List Stroke) (other : Status × Stroke)
      → All (λ c. cp ≢ c) cs
      → find_stroke cp cs ks other ≡ other
  unfolding find_stroke
  find_stroke_miss [] ks other h = refl
  find_stroke_miss (c ∷ cs) [] other h = refl
  find_stroke_miss (c ∷ cs) (k ∷ ks) other h = ground (arith, find_stroke_miss cs ks other h.1)

  pub map_de_large : cp ≢ 0x20ac → (map_de cp no_stroke).0 ≢ ok
  unfolding map_de
  map_de_large ne =
      rw
        (
          find_stroke_miss symbols keys
              (find_stroke cp unicode_points unicode_strokes (map_ascii (swap_yz cp) no_stroke))
              (omega arith),
          find_stroke_miss unicode_points unicode_strokes (map_ascii (swap_yz cp) no_stroke)
              (omega arith),
          same,
        )
        (map_ascii_large no_stroke)
    where
      same : swap_yz cp ≡ cp
      same = ground arith

-- A stroke of the US map shows its character on a US host.
pub map_ascii-shows : (cp : ℕ) (s : Stroke) → map_ascii cp no_stroke ≡ (ok, s) → host_us s ≡ cp
map_ascii-shows cp s e = elim (dec_lt cp 256) [
  | yes small ↦
      agrees_shows host_us (map_ascii cp no_stroke) cp s
        (every-lt 256 (λ c. agrees host_us (map_ascii c no_stroke) c) cp us_table small) e
  | no large ↦
      absurd (map_ascii_large cp (omega arith) no_stroke (ap (λ (p : Status × Stroke). p.0) e))
]

-- A stroke of the German map shows its character on a German host.
pub map_de-shows : (cp : ℕ) (s : Stroke) → map_de cp no_stroke ≡ (ok, s) → host_de s ≡ cp
map_de-shows cp s e = elim (dec_lt cp 256) [
  | yes small ↦
      agrees_shows host_de (map_de cp no_stroke) cp s
        (every-lt 256 (λ c. agrees host_de (map_de c no_stroke) c) cp de_table small) e
  | no large ↦ elim (ℕ_discrete cp 0x20ac) [
    | yes is_euro ↦ agrees_shows host_de (map_de cp no_stroke) cp s (rw is_euro euro) e
    | no ne ↦ absurd (map_de_large cp (omega arith) ne (ap (λ (p : Status × Stroke). p.0) e))
  ]
]

-- Every printable ASCII character has a key on both layouts.
pub printable-ok :
    (cp : ℕ)
    → 32 ≤ cp
    → cp < 127
    → ((map_ascii cp no_stroke).0 ≡ ok) × ((map_de cp no_stroke).0 ≡ ok)
printable-ok cp lo hi = (
  ok_of (map_ascii cp no_stroke) (ground (arith, checked)),
  ok_of (map_de cp no_stroke) (ground (arith, checked)),
)
  where
    checked : (ltb cp 32 || (is_ok (map_ascii cp no_stroke) && is_ok (map_de cp no_stroke))) ≡ true
    checked =
        every-lt 127
          (λ c. ltb c 32 || (is_ok (map_ascii c no_stroke) && is_ok (map_de c no_stroke))) cp
          printable_table hi

    ok_of : (m : Status × Stroke) → is_ok m ≡ true → m.0 ≡ ok
    ok_of (ok, s) h = refl
    ok_of (_, s) h = cc
