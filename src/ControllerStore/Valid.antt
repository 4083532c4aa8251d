-- ===== src/ControllerStore/Valid.antt =====
-- What a trust store that is in order is, independent of the loops that check one.
use picobridge.Prelude.{ℕ, ◌≤◌, ◌<◌, ◌^◌, ◌≡◌, ◌≢◌, List, [], ◌∷◌, length, All}
use picobridge.ControllerStore.Types.{
  slot_count, key_len, role_none, role_recovery_admin, Slot, Store,
}

abbrev pub IsZeroKey : List ℕ → Type 0
IsZeroKey key = All (λ b. b ≡ 0) key

-- A slot holds a known role; its key is all zeros exactly when the slot is free.
pub record IsGoodSlot (s : Slot) : Type 0 where
  pub known : s.role ≤ role_recovery_admin
  pub size : length s.public_key ≡ key_len
  pub bytes : All (λ b. b < 256) s.public_key
  pub free_zero : s.role ≡ role_none → IsZeroKey s.public_key
  pub used_not_zero : s.role ≢ role_none → ¬ (IsZeroKey s.public_key)

-- Two slots do not share a key, unless one is free.
abbrev pub IsApart : Slot → Slot → Type 0
IsApart s t = s.role ≢ role_none → t.role ≢ role_none → s.public_key ≢ t.public_key

abbrev pub IsPairwiseApart : List Slot → Type 0
IsPairwiseApart [] = Unit
IsPairwiseApart (s ∷ slots) = All (IsApart s) slots × IsPairwiseApart slots

abbrev pub IsOrdinary : Slot → Type 0
IsOrdinary s = s.role ≢ role_recovery_admin

-- The first slot is the recovery administrator's, and no other is.
abbrev pub IsRecoveryFirst : List Slot → Type 0
IsRecoveryFirst [] = ⊥
IsRecoveryFirst (s ∷ slots) = (s.role ≡ role_recovery_admin) × All IsOrdinary slots

pub record IsTrusted (s : Store) : Type 0 where
  pub word : s.generation < 2 ^ 32
  pub count : length s.slots ≡ slot_count
  pub good : All IsGoodSlot s.slots
  pub apart : IsPairwiseApart s.slots
  pub recovery : IsRecoveryFirst s.slots
