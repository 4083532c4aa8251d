-- ===== src/ControllerStore/Flash/Seed.antt =====
-- `controller_store_flash_boot_or_seed` of firmware/controller_store_flash.c.
use picobridge.Prelude.{
  ℕ, ◌≡◌, ◌≢◌, inl, inr, refl, arith, List, [], ◌∷◌, ◌==◌, length, All, Bool-cases, ==_iff, bit_or,
  bit_xor,
}
use picobridge.Prelude.Masks.{bit_or-zero_iff, bit_xor-zero_iff}
use picobridge.ControllerStore.Flash.{
  Board, Flash, Execution, is_ok, boot_existing, any_change, sectors_are_erased, boot_or_seed,
}

abbrev pub IsErased : List ℕ → Type 0
IsErased = All (λ b. b ≡ 0xff)

any_change-IsErased :
    (changed : ℕ) (left right : List ℕ)
    → length left ≡ length right
    → any_change changed left right ≡ 0
    → (changed ≡ 0) × (IsErased left × IsErased right)
unfolding any_change
any_change-IsErased changed [] [] e h = (h, (tt, tt))
any_change-IsErased changed [] (b ∷ right) e h = absurd (omega arith)
any_change-IsErased changed (a ∷ left) [] e h = absurd (omega arith)
any_change-IsErased changed (a ∷ left) (b ∷ right) e h =
    let rest =
      any_change-IsErased (bit_or changed (bit_or (bit_xor a 0xff) (bit_xor b 0xff))) left right
        (omega arith) h in
    let outer = (bit_or-zero_iff changed (bit_or (bit_xor a 0xff) (bit_xor b 0xff))).0 rest.0 in
    let inner = (bit_or-zero_iff (bit_xor a 0xff) (bit_xor b 0xff)).0 outer.1 in
    (
      outer.0,
      (
        ((bit_xor-zero_iff a 0xff).0 inner.0, rest.1.0),
        ((bit_xor-zero_iff b 0xff).0 inner.1, rest.1.1),
      ),
    )

-- Booting never replaces a trust store, damaged or not: when it changes the flash, every byte of
-- both sectors, taken to be of one length, was erased before.
pub boot_or_seed-IsErased :
    (board : Board) (f : Flash) (key : List ℕ) (granted : Execution)
    → length f.sector_a ≡ length f.sector_b
    → (boot_or_seed board f key granted).flash ≢ f
    → IsErased f.sector_a × IsErased f.sector_b
unfolding boot_or_seed sectors_are_erased
boot_or_seed-IsErased board f key granted e changed =
    elim (Bool-cases (is_ok (boot_existing f).0)) [
      | inl booted ↦ absurd (changed (rw booted refl))
      | inr failed ↦ elim (Bool-cases (any_change 0 f.sector_a f.sector_b == 0)) [
        | inl erased ↦ (any_change-IsErased 0 f.sector_a f.sector_b e ((==_iff _ _).0 erased)).1
        | inr damaged ↦ absurd (changed (rw (failed, damaged) refl))
      ]
    ]
