-- ===== src/ControllerStore/Lookup.antt =====
-- Who is found in the trust store of firmware/controller_store.c after a change.
use picobridge.Prelude.{
  ℕ, zero, suc, ◌≡◌, ◌≢◌, refl, sym, ap, ◌∙◌, arith, true, none, some, List, [], ◌∷◌, get_or, set,
  All, All-map, All-set, All-get_or,
}
use mathlib.Core.Path.{subst}
use picobridge.ControllerStore.Store.{ct_equal}
use picobridge.ControllerStore.Compare.{ct_equal_iff}
use picobridge.ControllerStore.Types.{Slot, Store, ok, empty_slot, role_none, role_recovery_admin}
use picobridge.ControllerStore.Admin.{find, find_from, add, revoke}
use picobridge.ControllerStore.Valid.{IsApart, IsPairwiseApart, IsRecoveryFirst, IsTrusted}
use picobridge.ControllerStore.Check.{IsKey, HasKey}
use picobridge.ControllerStore.Boot.{keys_of_trusted}
use picobridge.ControllerStore.Find.{IsAbsent, IsAbsent-find_from, find_from-set}
use picobridge.ControllerStore.Change.{
  with_slot, AddOutcome, added, refused, add-AddOutcome, RevokeOutcome, revoked, kept,
  revoke-RevokeOutcome,
}
use picobridge.ControllerStore.Trust.{empty_slot-IsGoodSlot}

-- A key of 32 bytes whose addition to a trusted store succeeds is found, in the slot that was told
-- and with the role that was asked for; before, it was not.
pub find-add :
    (s : Store) (caller : ℕ) (key : List ℕ) (role : ℕ)
    → IsTrusted s
    → IsKey key
    → (add s caller key role).status ≡ ok
    → (slot : ℕ) × ((add s caller key role).slot ≡ some slot)
      × (find s key ≡ none)
      × (find (add s caller key role).store key ≡ some (slot, role))
unfolding find
find-add s caller key role t k h = from (add-AddOutcome s caller key role t k)
  where
    from :
        AddOutcome s caller key role (add s caller key role)
        → (slot : ℕ) × ((add s caller key role).slot ≡ some slot)
          × (find_from 0 s.slots key ≡ none)
          × (find_from 0 (add s caller key role).store.slots key ≡ some (slot, role))
    from (refused ne same told) = absurd (ne h)
    from (added e a) = (
      suc a.index,
      a.told,
      IsAbsent-find_from key k 0 s.slots (keys_of_trusted s t) a.absent,
      ap (λ (x : Store). find_from 0 x.slots key) a.stored
          ∙ find_from-set key k 0 (suc a.index) s.slots role (keys_of_trusted s t) a.absent a.inside
              (ground (arith, a.ordinary))
          ∙ ap (λ n. some (n, role)) (omega arith),
    )

-- In a list without shared keys, the key of a slot in use is nowhere when that slot is freed.
freed-IsAbsent :
    (slots : List Slot) (i : ℕ) (key : List ℕ)
    → IsPairwiseApart slots
    → (get_or slots i empty_slot).role ≢ role_none
    → (get_or slots i empty_slot).public_key ≡ key
    → IsAbsent key (set slots i empty_slot)
freed-IsAbsent [] i key p used e = tt
freed-IsAbsent (s ∷ slots) zero key p used e = (
  (λ u. absurd (u refl)),
  All-map (IsApart s) _ (λ t a ut same. a used ut (e ∙ sym same)) slots p.0,
)
freed-IsAbsent (s ∷ slots) (suc i) key p used e =
    ((λ us same. at_index slots i p.0 us same used e), freed-IsAbsent slots i key p.1 used e)
  where
    at_index :
        (slots : List Slot) (i : ℕ)
        → All (IsApart s) slots
        → s.role ≢ role_none
        → s.public_key ≡ key
        → (get_or slots i empty_slot).role ≢ role_none
        → (get_or slots i empty_slot).public_key ≡ key
        → ⊥
    at_index [] i a us same used e = used refl
    at_index (t ∷ slots) zero a us same used e = a.0 us used (same ∙ sym e)
    at_index (t ∷ slots) (suc i) a us same used e = at_index slots i a.1 us same used e

-- The recovery administrator is found first, whatever another slot holds.
first-found :
    (slots : List Slot) (i : ℕ) (v : Slot)
    → IsRecoveryFirst slots
    → find_from 0 (set slots (suc i) v) (get_or slots 0 empty_slot).public_key
      ≡ some (0, role_recovery_admin)
unfolding find_from
first-found [] i v h = absurd h
first-found (s ∷ slots) i v h =
    let same : ct_equal s.public_key s.public_key ≡ true =
      (ct_equal_iff s.public_key s.public_key refl).1 refl in
    ground (arith, h.0)

-- In a trusted store, where no key stands twice, the key of a controller whose revocation succeeds
-- is no longer found, and the recovery administrator still is.
pub find-revoke :
    (s : Store) (caller target : ℕ)
    → IsTrusted s
    → (revoke s caller target).0 ≡ ok
    → (find (revoke s caller target).1 (get_or s.slots target empty_slot).public_key ≡ none)
      × (find (revoke s caller target).1 (get_or s.slots 0 empty_slot).public_key
          ≡ some (0, role_recovery_admin))
unfolding find
find-revoke s caller target t h = from (revoke-RevokeOutcome s caller target)
  where
    key_at : ℕ → List ℕ
    key_at i = (get_or s.slots i empty_slot).public_key

    empty_key : HasKey empty_slot
    empty_key = record { size = empty_slot-IsGoodSlot.size; bytes = empty_slot-IsGoodSlot.bytes }

    key_at-IsKey : (i : ℕ) → IsKey (key_at i)
    key_at-IsKey i = All-get_or HasKey s.slots i empty_slot empty_key (keys_of_trusted s t)

    from :
        RevokeOutcome s caller target (revoke s caller target)
        → (find_from 0
              (revoke s caller target).1.slots
              (get_or s.slots target empty_slot).public_key
            ≡ none)
          × (find_from 0 (revoke s caller target).1.slots (get_or s.slots 0 empty_slot).public_key
              ≡ some (0, role_recovery_admin))
    from (kept ne same) = absurd (ne h)
    from (revoked e r) = (
      ap (λ (x : Store). find_from 0 x.slots (key_at target)) r.stored
          ∙ IsAbsent-find_from (key_at target) (key_at-IsKey target) 0
              (with_slot s (suc r.index) empty_slot).slots
              (All-set HasKey s.slots (suc r.index) empty_slot empty_key (keys_of_trusted s t))
              (freed-IsAbsent s.slots (suc r.index) (key_at target) t.apart
                (subst (λ i. (get_or s.slots i empty_slot).role ≢ role_none) r.not_first r.was_used)
                (ap key_at (sym r.not_first))),
      ap (λ (x : Store). find_from 0 x.slots (key_at 0)) r.stored
          ∙ first-found s.slots r.index empty_slot t.recovery,
    )
