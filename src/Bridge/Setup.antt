-- ===== src/Bridge/Setup.antt =====
-- The start of the controllers and the advertising timer in firmware/bridge_main.c.
use picobridge.Prelude.{
  ℕ, ◌+◌, Bool, true, false, not, ◌&&◌, List, [], ◌∷◌, ◌==◌, if◌then◌else◌, u32, is_before, Option,
  none, some,
}
use picobridge.ControllerStore.Types.{Slot, Store, role_none, role_admin}
use picobridge.ControllerStore.Admin.{add, slots_from_one}
use picobridge.ControllerStore.Flash.{Board, Flash, Execution, is_ok, commit, boot_or_seed}

-- Whether every slot is free.
unfoldable pub all_free : List Slot → Bool
all_free [] = true
all_free (s ∷ slots) = s.role == role_none && all_free slots

-- What the setup leaves: whether it has succeeded, the store in memory and the sectors.
pub record Setup : Type 0 where
  pub succeeded : Bool
  pub controllers : Store
  pub flash : Flash

module _ (board : Board) where
  -- The first administrator is imported; the commit decides.
  unfoldable pub import_admin : Store → Flash → List ℕ → Execution → Setup
  import_admin store f initiator granted =
      let added = add store 0 initiator role_admin in
      let committed = commit board f added.store granted in
      if not (is_ok added.status)
      then record { succeeded = false; controllers = store; flash = f }
      else record { succeeded = is_ok committed.0; controllers = added.store; flash = committed.1 }

  -- The recovery key and the initiator's key are those of the build. `granted` is what
  -- `flash_safe_execute` does for the seed and then for the import.
  unfoldable pub controller_setup : Flash → List ℕ → List ℕ → Execution × Execution → Setup
  controller_setup f recovery initiator granted =
      let booted = boot_or_seed board f recovery granted.0 in
      if not (is_ok booted.status)
      then record { succeeded = false; controllers = booted.store; flash = booted.flash }
      else if booted.store.generation == 1 && all_free (slots_from_one booted.store.slots)
      then import_admin booted.store booted.flash initiator granted.1
      else record { succeeded = true; controllers = booted.store; flash = booted.flash }

-- The timer by which advertising is turned off and on again after a disconnect.
pub record Advertising : Type 0 where
  pub needed : Bool
  pub disable_ms : ℕ

-- The state after a poll, and what `gap_advertisements_enable` is called with, if it is.
unfoldable pub readvertise_poll : Advertising → ℕ → Option Bool × Advertising
readvertise_poll a now_ms =
    if not a.needed
    then (none, a)
    else if a.disable_ms == 0
    then (some false, record a { disable_ms = u32 (now_ms + 100) })
    else if is_before now_ms a.disable_ms
    then (none, a)
    else (some true, record { needed = false; disable_ms = 0 })
