-- ===== src/ControllerStore/Change.antt =====
-- What `controller_store_add` and `controller_store_revoke` of firmware/controller_store.c do to a
-- store, on every branch.
use picobridge.Prelude.{
  ℕ, zero, suc, ◌+◌, ◌<◌, ◌≡◌, ◌≢◌, ◌⊎◌, inl, inr, refl, arith, true, ◌||◌, none, some, List, [],
  ◌∷◌, length, leb, get_or, set, ◌==◌, Bool-cases, Option-cases, u32,
}
use picobridge.ControllerStore.Types.{
  Slot, Store, Status, ok, slot_count, empty_slot, role_none, role_operator, role_admin,
}
use picobridge.ControllerStore.Store.{key_is_zero}
use picobridge.ControllerStore.Admin.{
  Added, add, revoke, fill, find, is_found, is_admin, free_from, slots_from_one,
}
use picobridge.ControllerStore.Valid.{IsZeroKey, IsTrusted}
use picobridge.ControllerStore.Compare.{key_is_zero_iff}
use picobridge.ControllerStore.Check.{IsKey}
use picobridge.ControllerStore.Boot.{keys_of_trusted}
use picobridge.ControllerStore.Find.{IsAbsent, find_from-IsAbsent, free_from-IsFree}

-- The store with one slot written and the next generation.
abbrev pub with_slot : Store → ℕ → Slot → Store
with_slot store i slot = record {
  generation = u32 (store.generation + 1);
  slots = set store.slots i slot;
}

-- A key has been added: by an administrator, as an ordinary role, not a zero key, under no other
-- slot, and into a slot that was free and is not the first.
pub record IsAdded (store : Store) (caller : ℕ) (key : List ℕ) (role : ℕ) (a : Added) : Type 0 where
  pub admin : is_admin store caller ≡ true
  pub ordinary : (role ≡ role_operator) ⊎ (role ≡ role_admin)
  pub not_zero : ¬ (IsZeroKey key)
  pub absent : IsAbsent key store.slots
  pub index : ℕ
  pub inside : suc index < length store.slots
  pub was_free : (get_or store.slots (suc index) empty_slot).role ≡ role_none
  pub told : a.slot ≡ some (suc index)
  pub stored : a.store ≡ with_slot store (suc index) (record { role = role; public_key = key })

pub data AddOutcome (store : Store) (caller : ℕ) (key : List ℕ) (role : ℕ) (a : Added)
    : Type 0 where
  added : a.status ≡ ok → IsAdded store caller key role a → AddOutcome store caller key role a
  refused : a.status ≢ ok → a.store ≡ store → a.slot ≡ none → AddOutcome store caller key role a

fill_at :
    (store : Store) (key : List ℕ) (role j : ℕ)
    → free_from 1 (slots_from_one store.slots) ≡ some j
    → (index : ℕ) × (suc index < length store.slots)
      × ((get_or store.slots (suc index) empty_slot).role ≡ role_none)
      × (j ≡ suc index)
fill_at store key role j e = go store.slots e
  where
    go :
        (slots : List Slot)
        → free_from 1 (slots_from_one slots) ≡ some j
        → (index : ℕ) × (suc index < length slots)
          × ((get_or slots (suc index) empty_slot).role ≡ role_none)
          × (j ≡ suc index)
    go [] e = let f = free_from-IsFree 1 [] j e in absurd (omega (arith, f.inside))
    go (s ∷ slots) e =
        let f = free_from-IsFree 1 slots j e in
        (f.index, omega (arith, f.inside), f.free, omega (arith, f.at_index))

-- An add either puts the key into a free slot, with all that this asks for, or changes nothing.
pub add-AddOutcome :
    (store : Store) (caller : ℕ) (key : List ℕ) (role : ℕ)
    → IsTrusted store
    → IsKey key
    → AddOutcome store caller key role (add store caller key role)
unfolding add fill find
add-AddOutcome store caller key role t k = elim (Bool-cases (key_is_zero key)) [
  | inl zero_key ↦ refused (ground arith) (ground arith) (ground arith)
  | inr not_zero ↦ elim (Bool-cases (role == role_operator || role == role_admin)) [
    | inr other ↦ refused (ground arith) (ground arith) (ground arith)
    | inl ordinary ↦ elim (Bool-cases (is_admin store caller)) [
      | inr not_admin ↦ refused (ground arith) (ground arith) (ground arith)
      | inl admin ↦ elim (Bool-cases (is_found (find store key))) [
        | inl there ↦ refused (ground arith) (ground arith) (ground arith)
        | inr absent ↦ elim (Option-cases (free_from 1 (slots_from_one store.slots))) [
          | inl full ↦ refused (ground arith) (ground arith) (ground arith)
          | inr (j, e) ↦
              let f = fill_at store key role j e in
              added (ground arith) (record {
                admin = admin;
                ordinary = ground arith;
                not_zero = λ z. ground (arith, (key_is_zero_iff key).1 z);
                absent = find_from-IsAbsent key k 0 store.slots (keys_of_trusted store t) absent;
                index = f.0;
                inside = f.1;
                was_free = f.2;
                told = ground arith;
                stored = ground arith;
              })
        ]
      ]
    ]
  ]
]

-- A slot has been freed: by an administrator, a slot in use that is not the first.
pub record IsRevoked (store : Store) (caller target : ℕ) (store' : Store) : Type 0 where
  pub admin : is_admin store caller ≡ true
  pub index : ℕ
  pub not_first : target ≡ suc index
  pub inside : target < slot_count
  pub was_used : (get_or store.slots target empty_slot).role ≢ role_none
  pub stored : store' ≡ with_slot store (suc index) empty_slot

pub data RevokeOutcome (store : Store) (caller target : ℕ) (p : Status × Store) : Type 0 where
  revoked : p.0 ≡ ok → IsRevoked store caller target p.1 → RevokeOutcome store caller target p
  kept : p.0 ≢ ok → p.1 ≡ store → RevokeOutcome store caller target p

-- A revocation either frees the target, with all that this asks for, or changes nothing.
pub revoke-RevokeOutcome :
    (store : Store) (caller target : ℕ)
    → RevokeOutcome store caller target (revoke store caller target)
unfolding revoke
revoke-RevokeOutcome store caller zero = elim (Bool-cases (leb slot_count caller)) [
  | inl out ↦ kept (ground arith) (ground arith)
  | inr in_range ↦ elim (Bool-cases (is_admin store caller)) [
    | inl admin ↦ kept (ground arith) (ground arith)
    | inr not_admin ↦ kept (ground arith) (ground arith)
  ]
]
revoke-RevokeOutcome store caller (suc target) =
    elim (Bool-cases (leb slot_count caller || leb slot_count (suc target))) [
      | inl out ↦ kept (ground arith) (ground arith)
      | inr in_range ↦ elim (Bool-cases (is_admin store caller)) [
        | inr not_admin ↦ kept (ground arith) (ground arith)
        | inl admin ↦
            elim (Bool-cases ((get_or store.slots (suc target) empty_slot).role == role_none)) [
              | inl free ↦ kept (ground arith) (ground arith)
              | inr used ↦ revoked (ground arith) (record {
                admin = admin;
                index = target;
                not_first = refl;
                inside = ground arith;
                was_used = ground arith;
                stored = ground arith;
              })
            ]
      ]
    ]
