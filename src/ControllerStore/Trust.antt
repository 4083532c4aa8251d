-- ===== src/ControllerStore/Trust.antt =====
-- The operations of firmware/controller_store.c keep a store trusted.
use picobridge.Prelude.{
  ℕ, zero, suc, ◌≡◌, inl, inr, refl, sym, ◌∙◌, arith, List, [], ◌∷◌, set, replicate, All, All-map,
  All-set, length-set, Bool-cases,
}
use mathlib.Core.Path.{subst}
use picobridge.ControllerStore.Types.{Slot, Store, ok, empty_slot, role_recovery_admin}
use picobridge.ControllerStore.Store.{key_is_zero, initialise, empty}
use picobridge.ControllerStore.Admin.{add, revoke}
use picobridge.ControllerStore.Valid.{
  IsGoodSlot, IsApart, IsPairwiseApart, IsOrdinary, IsRecoveryFirst, IsTrusted,
}
use picobridge.ControllerStore.Compare.{key_is_zero_iff}
use picobridge.ControllerStore.Check.{IsKey}
use picobridge.ControllerStore.Change.{
  with_slot, AddOutcome, added, refused, add-AddOutcome, RevokeOutcome, revoked, kept,
  revoke-RevokeOutcome,
}

set-IsPairwiseApart :
    (slots : List Slot) (i : ℕ) (v : Slot)
    → IsPairwiseApart slots
    → All (IsApart v) slots
    → IsPairwiseApart (set slots i v)
set-IsPairwiseApart [] i v p a = tt
set-IsPairwiseApart (s ∷ slots) zero v p a = (a.1, p.1)
set-IsPairwiseApart (s ∷ slots) (suc i) v p a = (
  All-set (IsApart s) slots i v (λ us uv e. a.0 uv us (sym e)) p.0,
  set-IsPairwiseApart slots i v p.1 a.1,
)

set-IsRecoveryFirst :
    (slots : List Slot) (i : ℕ) (v : Slot)
    → IsOrdinary v
    → IsRecoveryFirst slots
    → IsRecoveryFirst (set slots (suc i) v)
set-IsRecoveryFirst [] i v o h = absurd h
set-IsRecoveryFirst (s ∷ slots) i v o h = (h.0, All-set IsOrdinary slots i v o h.1)

with_slot-IsTrusted :
    (s : Store) (i : ℕ) (v : Slot)
    → IsTrusted s
    → IsGoodSlot v
    → IsOrdinary v
    → All (IsApart v) s.slots
    → IsTrusted (with_slot s (suc i) v)
with_slot-IsTrusted s i v t g o a = record {
  word = omega arith;
  count = length-set s.slots (suc i) v ∙ t.count;
  good = All-set IsGoodSlot s.slots (suc i) v g t.good;
  apart = set-IsPairwiseApart s.slots (suc i) v t.apart a;
  recovery = set-IsRecoveryFirst s.slots i v o t.recovery;
}

pub empty_slot-IsGoodSlot : IsGoodSlot empty_slot
unfolding replicate
empty_slot-IsGoodSlot = record {
  known = omega arith;
  size = refl;
  bytes = ground arith;
  free_zero = λ e. ground arith;
  used_not_zero = λ ne z. ne refl;
}

free_apart : (slots : List Slot) → All (IsApart empty_slot) slots
free_apart [] = tt
free_apart (s ∷ slots) = (λ used u e. used refl, free_apart slots)

pub add-IsTrusted :
    (store : Store) (caller : ℕ) (key : List ℕ) (role : ℕ)
    → IsTrusted store
    → IsKey key
    → IsTrusted (add store caller key role).store
add-IsTrusted store caller key role t k = from (add-AddOutcome store caller key role t k)
  where
    from :
        AddOutcome store caller key role (add store caller key role)
        → IsTrusted (add store caller key role).store
    from (refused ne same told) = subst IsTrusted (sym same) t
    from (added e a) = subst IsTrusted (sym a.stored) (
        with_slot-IsTrusted store a.index (record { role = role; public_key = key }) t
          (record {
            known = ground (arith, a.ordinary);
            size = k.size;
            bytes = k.bytes;
            free_zero = λ z. absurd (ground (arith, a.ordinary));
            used_not_zero = λ used. a.not_zero;
          })
          (ground (arith, a.ordinary))
          (All-map _ (IsApart (record { role = role; public_key = key }))
            (λ s other us ut e. other ut (sym e)) store.slots a.absent))

pub revoke-IsTrusted :
    (store : Store) (caller target : ℕ) → IsTrusted store → IsTrusted (revoke store caller target).1
revoke-IsTrusted store caller target t = from (revoke-RevokeOutcome store caller target)
  where
    from :
        RevokeOutcome store caller target (revoke store caller target)
        → IsTrusted (revoke store caller target).1
    from (kept ne same) = subst IsTrusted (sym same) t
    from (revoked e r) = subst IsTrusted (sym r.stored) (
        with_slot-IsTrusted store r.index empty_slot t empty_slot-IsGoodSlot (λ e. ground arith)
          (free_apart store.slots))

-- Any number of free slots.
frees : (n : ℕ) (P : Slot → Type 0) → P empty_slot → All P (replicate n empty_slot)
unfolding replicate
frees zero P p = tt
frees (suc n) P p = (p, frees n P p)

frees_apart : (n : ℕ) → IsPairwiseApart (replicate n empty_slot)
unfolding replicate
frees_apart zero = tt
frees_apart (suc n) = (frees n (IsApart empty_slot) (λ us ut e. us refl), frees_apart n)

-- A store that is initialised with a key of 32 bytes that is not all zeros is trusted.
pub initialise-IsTrusted :
    (store : Store) (key : List ℕ)
    → IsKey key
    → (initialise store key).0 ≡ ok
    → IsTrusted (initialise store key).1
unfolding initialise empty replicate
initialise-IsTrusted store key k h = elim (Bool-cases (key_is_zero key)) [
  | inl z ↦ absurd (ground arith)
  | inr nz ↦ rw nz (record {
    word = omega arith;
    count = refl;
    good = (
      record {
        known = omega arith;
        size = k.size;
        bytes = k.bytes;
        free_zero = λ e. absurd (omega arith);
        used_not_zero = λ ne z. ground (arith, (key_is_zero_iff key).1 z);
      },
      frees 4 IsGoodSlot empty_slot-IsGoodSlot,
    );
    apart = (
      frees 4 (IsApart (record { role = role_recovery_admin; public_key = key }))
          (λ us ut e. ut refl),
      frees_apart 4,
    );
    recovery = (refl, frees 4 IsOrdinary (λ e. ground arith));
  })
]
