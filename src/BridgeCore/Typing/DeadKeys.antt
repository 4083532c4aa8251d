-- ===== src/BridgeCore/Typing/DeadKeys.antt =====
-- The dead keys of the host against the characters that firmware/core/bridge_core.c takes for dead:
-- the two agree on every character that has a key.
use picobridge.Prelude.{
  ℕ, ◌≡◌, refl, sym, ap, ◌∙◌, arith, Bool, true, false, not, ◌&&◌, ◌==◌, Bool-cases, inl, inr,
}
use mathlib.Core.Path.{subst}
use native.Mathlib.Decide.{dec_lt, ℕ_discrete}
use picobridge.Prelude.Bits.{every, every-lt}
use picobridge.BridgeCore.Types.{Status, ok, Stroke, no_stroke, layout_de}
use picobridge.BridgeCore.Keymap.{map_ascii, map_de, find_stroke, map_symbol}
use picobridge.BridgeCore.Keymap.Hosts.{dead_de}
use picobridge.BridgeCore.Keymap.Faithful.{map_de_large}
use picobridge.BridgeCore.Stage.{Options, is_dead, map_key}

-- Whether a host with the layout of the request waits after a stroke. A US keyboard has no dead key.
abbrev pub host_dead : Options → Stroke → Bool
host_dead o s = o.layout == layout_de && dead_de s

abbrev german : Options
german = record { layout = layout_de; mode = 0; flags = 0 }

abbrev waits_as : Bool → Status × Stroke → Bool
waits_as true (ok, s) = dead_de s
waits_as false (ok, s) = not (dead_de s)
waits_as dead (_, s) = true

waits_as-dead :
    (dead : Bool) (m : Status × Stroke) (s : Stroke)
    → waits_as dead m ≡ true
    → m ≡ (ok, s)
    → dead_de s ≡ dead
waits_as-dead true (ok, s') s h e = ap dead_de (sym (ap (λ (p : Status × Stroke). p.1) e)) ∙ h
waits_as-dead false (ok, s') s h e =
    ap dead_de (sym (ap (λ (p : Status × Stroke). p.1) e)) ∙ ground arith
waits_as-dead dead (_, s') s h e = cc

dead_table : every 256 (λ cp. waits_as (is_dead german cp) (map_de cp no_stroke)) ≡ true
unfolding every dead_de map_de map_ascii find_stroke map_symbol
dead_table = refl

euro_plain : waits_as (is_dead german 0x20ac) (map_de 0x20ac no_stroke) ≡ true
unfolding dead_de map_de find_stroke
euro_plain = refl

dead_de-mapped :
    (cp : ℕ) (s : Stroke) → map_de cp no_stroke ≡ (ok, s) → dead_de s ≡ is_dead german cp
dead_de-mapped cp s e = waits_as-dead (is_dead german cp) (map_de cp no_stroke) s checked e
  where
    checked : waits_as (is_dead german cp) (map_de cp no_stroke) ≡ true
    checked = elim (dec_lt cp 256) [
      | yes small ↦
          every-lt 256 (λ c. waits_as (is_dead german c) (map_de c no_stroke)) cp dead_table small
      | no large ↦ elim (ℕ_discrete cp 0x20ac) [
        | yes is_euro ↦
            subst (λ c. waits_as (is_dead german c) (map_de c no_stroke) ≡ true) (sym is_euro)
              euro_plain
        | no ne ↦ absurd (map_de_large cp (omega arith) ne (ap (λ (p : Status × Stroke). p.0) e))
      ]
    ]

pub host_dead-mapped :
    (o : Options) (cp : ℕ) (s : Stroke)
    → map_key o cp no_stroke ≡ (ok, s)
    → host_dead o s ≡ is_dead o cp
unfolding map_key
host_dead-mapped o cp s h = elim (Bool-cases (o.layout == layout_de)) [
  | inl de ↦ rw de (dead_de-mapped cp s (rw de at h))
  | inr us ↦ rw us refl
]
