-- ===== src/ControllerStore/Admin.antt =====
-- The rest of firmware/controller_store.c: find, is_admin, add and revoke.
use picobridge.Prelude.{
  ℕ, ◌+◌, Bool, true, false, not, ◌&&◌, ◌||◌, Option, none, some, List, [], ◌∷◌, get_or, set, ltb,
  leb, ◌==◌, if◌then◌else◌, u32,
}
use picobridge.ControllerStore.Types.{
  slot_count, role_none, role_operator, role_admin, role_recovery_admin, Slot, empty_slot, Store,
  Status, ok, err_argument, err_full, err_duplicate, err_role, err_immutable, err_not_found,
}
use picobridge.ControllerStore.Store.{key_is_zero, ct_equal}

-- `controller_store_find` and the loop of it from slot `i` on: the slot and its role.
unfoldable pub find_from : ℕ → List Slot → List ℕ → Option (ℕ × ℕ)
find_from i [] key = none
find_from i (s ∷ slots) key =
    let rest = find_from (i + 1) slots key in
    if not (s.role == role_none) && ct_equal s.public_key key then some (i, s.role) else rest

unfoldable pub find : Store → List ℕ → Option (ℕ × ℕ)
find store key = find_from 0 store.slots key

unfoldable pub is_admin : Store → ℕ → Bool
is_admin store slot =
    ltb slot slot_count
    && ((get_or store.slots slot empty_slot).role == role_admin
        || (get_or store.slots slot empty_slot).role == role_recovery_admin)

-- The loop of `add` from slot `i` on: the first free slot.
unfoldable pub free_from : ℕ → List Slot → Option ℕ
free_from i [] = none
free_from i (s ∷ slots) =
    let rest = free_from (i + 1) slots in if s.role == role_none then some i else rest

abbrev pub slots_from_one : List Slot → List Slot
slots_from_one [] = []
slots_from_one (s ∷ slots) = slots

-- What a call of `add` leaves: its status, the store and `*slot_out` where it is written.
pub record Added : Type 0 where
  pub status : Status
  pub store : Store
  pub slot : Option ℕ

abbrev pub not_added : Status → Store → Added
not_added status store = record { status = status; store = store; slot = none }

-- A key goes into the free slot that was found.
unfoldable pub fill : Store → List ℕ → ℕ → Option ℕ → Added
fill store key role none = not_added err_full store
fill store key role (some i) = record {
  status = ok;
  store = record {
    generation = u32 (store.generation + 1);
    slots = set store.slots i (record { role = role; public_key = key });
  };
  slot = some i;
}

abbrev pub is_found : Option (ℕ × ℕ) → Bool
is_found none = false
is_found (some hit) = true

unfoldable pub add : Store → ℕ → List ℕ → ℕ → Added
add store caller_slot key role =
    if key_is_zero key || (not (role == role_operator) && not (role == role_admin))
    then not_added err_argument store
    else if not (is_admin store caller_slot)
    then not_added err_role store
    else if is_found (find store key)
    then not_added err_duplicate store
    else fill store key role (free_from 1 (slots_from_one store.slots))

unfoldable pub revoke : Store → ℕ → ℕ → Status × Store
revoke store caller_slot target_slot =
    if leb slot_count caller_slot || leb slot_count target_slot
    then (err_argument, store)
    else if not (is_admin store caller_slot)
    then (err_role, store)
    else if target_slot == 0
    then (err_immutable, store)
    else if (get_or store.slots target_slot empty_slot).role == role_none
    then (err_not_found, store)
    else (
      ok,
      record {
        generation = u32 (store.generation + 1);
        slots = set store.slots target_slot empty_slot;
      },
    )
