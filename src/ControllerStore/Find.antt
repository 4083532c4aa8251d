-- ===== src/ControllerStore/Find.antt =====
-- Searching the slots: `controller_store_find` and the search for a free slot of
-- firmware/controller_store.c.
use picobridge.Prelude.{
  ℕ, zero, suc, ◌+◌, ◌<◌, ◌≡◌, ◌≢◌, ◌↔◌, inl, inr, refl, sym, ◌∙◌, arith, true, false, none, some,
  List, [], ◌∷◌, length, get_or, set, All, ◌==◌, Bool-cases, ==_iff,
}
use picobridge.ControllerStore.Types.{Slot, empty_slot, role_none}
use picobridge.ControllerStore.Store.{ct_equal}
use picobridge.ControllerStore.Admin.{find_from, free_from, is_found}
use picobridge.ControllerStore.Compare.{ct_equal_iff}
use picobridge.ControllerStore.Check.{IsKey, HasKey}

-- No slot in use has the key.
abbrev pub IsAbsent : List ℕ → List Slot → Type 0
IsAbsent key = All (λ (t : Slot). t.role ≢ role_none → t.public_key ≢ key)

module _ (key : List ℕ) (k : IsKey key) where
  same_key : (s : Slot) → HasKey s → (ct_equal s.public_key key ≡ true) ↔ (s.public_key ≡ key)
  same_key s ks = ct_equal_iff s.public_key key (ks.size ∙ sym k.size)

  pub find_from-IsAbsent :
      (i : ℕ) (slots : List Slot)
      → All HasKey slots
      → is_found (find_from i slots key) ≡ false
      → IsAbsent key slots
  unfolding find_from
  find_from-IsAbsent i [] ks h = tt
  find_from-IsAbsent i (s ∷ slots) ks h = (
    λ used e. ground (arith, (same_key s ks.0).1 e),
    find_from-IsAbsent (i + 1) slots ks.1 (ground arith),
  )

  pub IsAbsent-find_from :
      (i : ℕ) (slots : List Slot)
      → All HasKey slots
      → IsAbsent key slots
      → find_from i slots key ≡ none
  unfolding find_from
  IsAbsent-find_from i [] ks h = refl
  IsAbsent-find_from i (s ∷ slots) ks h =
      let rest = IsAbsent-find_from (i + 1) slots ks.1 h.1 in
      elim (Bool-cases (ct_equal s.public_key key)) [
        | inl e ↦ let same = (same_key s ks.0).0 e in ground (arith, h.0)
        | inr ne ↦ ground arith
      ]

  -- A key put over a slot is found there.
  pub find_from-set :
      (i j : ℕ) (slots : List Slot) (role : ℕ)
      → All HasKey slots
      → IsAbsent key slots
      → j < length slots
      → role ≢ role_none
      → find_from i (set slots j (record { role = role; public_key = key })) key
        ≡ some (i + j, role)
  unfolding find_from
  find_from-set i j [] role ks h lt used = absurd (omega arith)
  find_from-set i zero (s ∷ slots) role ks h lt used =
      let hit : ct_equal key key ≡ true = (ct_equal_iff key key refl).1 refl in
      rw hit (ground arith)
  find_from-set i (suc j) (s ∷ slots) role ks h lt used =
      let rest = find_from-set (i + 1) j slots role ks.1 h.1 (omega arith) used in
      elim (Bool-cases (ct_equal s.public_key key)) [
        | inl e ↦ let same = (same_key s ks.0).0 e in ground (arith, h.0)
        | inr ne ↦ ground arith
      ]

-- The slot that the search for a free one returns is free.
pub record IsFree (i : ℕ) (slots : List Slot) (j : ℕ) : Type 0 where
  pub index : ℕ
  pub at_index : j ≡ i + index
  pub inside : index < length slots
  pub free : (get_or slots index empty_slot).role ≡ role_none

pub free_from-IsFree :
    (i : ℕ) (slots : List Slot) (j : ℕ) → free_from i slots ≡ some j → IsFree i slots j
unfolding free_from
free_from-IsFree i [] j h = absurd (ground arith)
free_from-IsFree i (s ∷ slots) j h = elim (Bool-cases (s.role == role_none)) [
  | inl e ↦ record {
    index = 0;
    at_index = ground arith;
    inside = omega arith;
    free = (==_iff _ _).0 e;
  }
  | inr ne ↦
      let rest = free_from-IsFree (i + 1) slots j (ground arith) in
      record {
        index = suc rest.index;
        at_index = omega (arith, rest.at_index);
        inside = omega (arith, rest.inside);
        free = rest.free;
      }
]
