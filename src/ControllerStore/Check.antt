-- ===== src/ControllerStore/Check.antt =====
-- The loops of `record_valid` in firmware/controller_store.c against the slots that are in order.
use picobridge.Prelude.{
  ℕ, ◌+◌, ◌<◌, ◌≡◌, ◌↔◌, inl, inr, refl, sym, ap, ◌∙◌, arith, true, false, some, List, [], ◌∷◌,
  ◌++◌, length, All, All-append, ◌==◌, if◌then◌else◌, Bool-cases,
}
use picobridge.ControllerStore.Types.{Slot, key_len, role_recovery_admin}
use picobridge.ControllerStore.Store.{
  role_valid, key_is_zero, ct_equal, has_same_key, slot_valid, check_slots,
}
use picobridge.ControllerStore.Valid.{IsGoodSlot, IsApart, IsPairwiseApart}
use picobridge.ControllerStore.Compare.{key_is_zero_iff, ct_equal_iff}

-- A key that lies in memory.
pub record IsKey (key : List ℕ) : Type 0 where
  pub size : length key ≡ key_len
  pub bytes : All (λ b. b < 256) key

abbrev pub HasKey : Slot → Type 0
HasKey s = IsKey s.public_key

pub slot_valid_iff : (s : Slot) → HasKey s → (slot_valid s ≡ true) ↔ IsGoodSlot s
unfolding slot_valid role_valid
slot_valid_iff s k = (to, from)
  where
    to : slot_valid s ≡ true → IsGoodSlot s
    to h = record {
      known = ground arith;
      size = k.size;
      bytes = k.bytes;
      free_zero = λ e. (key_is_zero_iff s.public_key).0 (ground arith);
      used_not_zero = λ ne z. ground (arith, (key_is_zero_iff s.public_key).1 z);
    }

    from : IsGoodSlot s → slot_valid s ≡ true
    from g = elim (Bool-cases (key_is_zero s.public_key)) [
      | inl z ↦ ground (arith, g.known, g.used_not_zero, (key_is_zero_iff s.public_key).0 z)
      | inr nz ↦ ground (arith, g.known, g.free_zero, (key_is_zero_iff s.public_key).1)
    ]

ct_equal_keys :
    (s t : Slot)
    → HasKey s
    → HasKey t
    → (ct_equal s.public_key t.public_key ≡ true) ↔ (s.public_key ≡ t.public_key)
ct_equal_keys s t k k' = ct_equal_iff s.public_key t.public_key (k.size ∙ sym k'.size)

pub has_same_key-IsApart :
    (s : Slot) (earlier : List Slot)
    → HasKey s
    → All HasKey earlier
    → has_same_key s earlier ≡ false
    → All (IsApart s) earlier
unfolding has_same_key
has_same_key-IsApart s [] k ks h = tt
has_same_key-IsApart s (t ∷ earlier) k ks h = (
  λ us ut e. ground (arith, (ct_equal_keys s t k ks.0).1 e),
  has_same_key-IsApart s earlier k ks.1 (ground arith),
)

pub IsApart-has_same_key :
    (s : Slot) (earlier : List Slot)
    → HasKey s
    → All HasKey earlier
    → All (IsApart s) earlier
    → has_same_key s earlier ≡ false
unfolding has_same_key
IsApart-has_same_key s [] k ks a = refl
IsApart-has_same_key s (t ∷ earlier) k ks a =
    let rest = IsApart-has_same_key s earlier k ks.1 a.1 in
    elim (Bool-cases (ct_equal s.public_key t.public_key)) [
      | inl e ↦ let same = (ct_equal_keys s t k ks.0).0 e in ground (arith, a.0)
      | inr ne ↦ ground arith
    ]

-- How many slots are the recovery administrator's.
abbrev pub count_recovery : List Slot → ℕ
count_recovery [] = 0
count_recovery (s ∷ slots) = (if s.role == role_recovery_admin then 1 else 0) + count_recovery slots

-- What the loop over the slots has found when it gets to its end.
pub record IsChecked (earlier slots : List Slot) (count found : ℕ) : Type 0 where
  pub good : All IsGoodSlot slots
  pub fresh : All (λ s. All (IsApart s) earlier) slots
  pub apart : IsPairwiseApart slots
  pub counted : found ≡ count + count_recovery slots

-- Apart from all of a list and from one more.
fresh-snoc :
    (earlier : List Slot) (s : Slot) (slots : List Slot)
    → All (λ t. All (IsApart t) (earlier ++ s ∷ [])) slots
    → All (λ t. All (IsApart t) earlier) slots × All (IsApart s) slots
fresh-snoc earlier s [] h = (tt, tt)
fresh-snoc earlier s (t ∷ slots) h =
    let rest = fresh-snoc earlier s slots h.1 in
    let split = unsnoc earlier h.0 in
    ((split.0, rest.0), (λ us ut e. split.1 ut us (sym e), rest.1))
  where
    unsnoc :
        (earlier : List Slot)
        → All (IsApart t) (earlier ++ s ∷ [])
        → All (IsApart t) earlier × IsApart t s
    unsnoc [] h = (tt, h.0)
    unsnoc (u ∷ earlier) h = let rest = unsnoc earlier h.1 in ((h.0, rest.0), rest.1)

snoc-fresh :
    (earlier : List Slot) (s : Slot) (slots : List Slot)
    → All (λ t. All (IsApart t) earlier) slots
    → All (IsApart s) slots
    → All (λ t. All (IsApart t) (earlier ++ s ∷ [])) slots
snoc-fresh earlier s [] h a = tt
snoc-fresh earlier s (t ∷ slots) h a = (
  All-append (IsApart t) earlier (s ∷ []) h.0 ((λ ut us e. a.0 us ut (sym e)), tt),
  snoc-fresh earlier s slots h.1 a.1,
)

pub check_slots-IsChecked :
    (earlier slots : List Slot) (count found : ℕ)
    → All HasKey earlier
    → All HasKey slots
    → check_slots earlier slots count ≡ some found
    → IsChecked earlier slots count found
unfolding check_slots
check_slots-IsChecked earlier [] count found ke ks h = record {
  good = tt;
  fresh = tt;
  apart = tt;
  counted = ground arith;
}
check_slots-IsChecked earlier (s ∷ slots) count found ke ks h =
    let next_count = if s.role == role_recovery_admin then count + 1 else count in
    elim (Bool-cases (slot_valid s)) [
      | inr bad ↦ absurd (ground arith)
      | inl valid ↦ elim (Bool-cases (has_same_key s earlier)) [
        | inl same ↦ absurd (ground arith)
        | inr fresh ↦
            let rest =
              check_slots-IsChecked (earlier ++ s ∷ []) slots next_count found
                (All-append HasKey earlier (s ∷ []) ke (ks.0, tt)) ks.1 (ground arith) in
            let split = fresh-snoc earlier s slots rest.fresh in
            record {
              good = ((slot_valid_iff s ks.0).0 valid, rest.good);
              fresh = (has_same_key-IsApart s earlier ks.0 ke fresh, split.0);
              apart = (split.1, rest.apart);
              counted = ground (arith, rest.counted);
            }
      ]
    ]

pub IsChecked-check_slots :
    (earlier slots : List Slot) (count found : ℕ)
    → All HasKey earlier
    → All HasKey slots
    → IsChecked earlier slots count found
    → check_slots earlier slots count ≡ some found
unfolding check_slots
IsChecked-check_slots earlier [] count found ke ks c = ap some (omega (arith, c.counted))
IsChecked-check_slots earlier (s ∷ slots) count found ke ks c =
    let next_count = if s.role == role_recovery_admin then count + 1 else count in
    let rest =
      IsChecked-check_slots (earlier ++ s ∷ []) slots next_count found
        (All-append HasKey earlier (s ∷ []) ke (ks.0, tt)) ks.1
        (record {
          good = c.good.1;
          fresh = snoc-fresh earlier s slots c.fresh.1 c.apart.0;
          apart = c.apart.1;
          counted = ground (arith, c.counted);
        }) in
    rw ((slot_valid_iff s ks.0).1 c.good.0, IsApart-has_same_key s earlier ks.0 ke c.fresh.0) rest
