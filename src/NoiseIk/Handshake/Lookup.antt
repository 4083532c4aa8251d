-- ===== src/NoiseIk/Handshake/Lookup.antt =====
-- The handshake's search for the initiator's key in firmware/noise_ik.c finds what
-- `controller_store_find` of firmware/controller_store.c finds.
use picobridge.Prelude.{
  ℕ, ◌+◌, ◌≤◌, ◌<◌, ◌≡◌, inl, inr, refl, sym, ◌∙◌, arith, true, false, not, ◌&&◌, Option, none,
  some, List, [], ◌∷◌, length, ◌==◌, Bool-cases, if◌then◌else◌, All,
}
use picobridge.ControllerStore.Types.{Slot, Store, slot_count, role_none}
use picobridge.ControllerStore.Store.{ct_equal}
use picobridge.ControllerStore.Admin.{find, find_from}
use picobridge.ControllerStore.Valid.{IsTrusted}
use picobridge.ControllerStore.Compare.{ct_equal_iff}
use picobridge.ControllerStore.Check.{IsKey, HasKey}
use picobridge.ControllerStore.Boot.{keys_of_trusted}
use picobridge.NoiseIk.Handshake.{match_from, match_slot}

-- A slot that has been matched stays matched.
match_from-kept :
    (i : ℕ) (slots : List Slot) (key : List ℕ) (slot role : ℕ)
    → slot < slot_count
    → match_from i slots key (slot, role) ≡ (slot, role)
unfolding match_from
match_from-kept i [] key slot role h = refl
match_from-kept i (s ∷ slots) key slot role h =
    let other : (slot == slot_count) ≡ false = ground arith in
    let rest = match_from-kept (i + 1) slots key slot role h in
    elim (Bool-cases (not (s.role == role_none) && ct_equal key s.public_key)) [
      | inl hit ↦ rw (hit, other) rest
      | inr miss ↦ rw miss rest
    ]

ct_equal_comm :
    (left right : List ℕ) → length left ≡ length right → ct_equal left right ≡ ct_equal right left
ct_equal_comm left right e = elim (Bool-cases (ct_equal left right)) [
  | inl same ↦
      same ∙ sym ((ct_equal_iff right left (sym e)).1 (sym ((ct_equal_iff left right e).0 same)))
  | inr other ↦ elim (Bool-cases (ct_equal right left)) [
    | inl same ↦ absurd (
        differ (
          sym other
          ∙ (ct_equal_iff left right e).1 (sym ((ct_equal_iff right left (sym e)).0 same))))
    | inr other' ↦ other ∙ sym other'
  ]
]
  where
    differ : false ≡ true → ⊥
    differ h = cc

-- What the search makes of what `find` returns.
abbrev found_or : Option (ℕ × ℕ) → ℕ × ℕ
found_or none = (slot_count, role_none)
found_or (some hit) = hit

match_from-find_from :
    (i : ℕ) (slots : List Slot) (key : List ℕ)
    → IsKey key
    → All HasKey slots
    → i + length slots ≤ slot_count
    → match_from i slots key (slot_count, role_none) ≡ found_or (find_from i slots key)
unfolding match_from find_from
match_from-find_from i [] key k ks h = refl
match_from-find_from i (s ∷ slots) key k ks h =
    let same : ct_equal key s.public_key ≡ ct_equal s.public_key key =
      ct_equal_comm key s.public_key (k.size ∙ sym ks.0.size) in
    elim (Bool-cases (not (s.role == role_none) && ct_equal s.public_key key)) [
      | inl hit ↦ rw (same, hit) (match_from-kept (i + 1) slots key i s.role (omega arith))
      | inr miss ↦ rw (same, miss) (match_from-find_from (i + 1) slots key k ks.1 (omega arith))
    ]

find_from_bound :
    (i : ℕ) (slots : List Slot) (key : List ℕ) (slot role : ℕ)
    → find_from i slots key ≡ some (slot, role)
    → slot < i + length slots
unfolding find_from
find_from_bound i [] key slot role h = absurd (ground arith)
find_from_bound i (s ∷ slots) key slot role h =
    elim (Bool-cases (not (s.role == role_none) && ct_equal s.public_key key)) [
      | inl hit ↦ ground arith
      | inr miss ↦ omega (arith, find_from_bound (i + 1) slots key slot role (rw miss at h))
    ]

-- In a trusted store the handshake finds exactly the slot and role that `find` returns for a key.
pub match_slot-find :
    (controllers : Store) (key : List ℕ)
    → IsTrusted controllers
    → IsKey key
    → match_slot (some controllers) key ≡ find controllers key
unfolding match_slot find
match_slot-find controllers key t k =
    from (find_from 0 controllers.slots key)
      (match_from-find_from 0 controllers.slots key k (keys_of_trusted controllers t)
        (omega (arith, t.count)))
      (λ slot role h. find_from_bound 0 controllers.slots key slot role h)
  where
    from :
        (found : Option (ℕ × ℕ))
        → match_from 0 controllers.slots key (slot_count, role_none) ≡ found_or found
        → ((slot role : ℕ) → found ≡ some (slot, role) → slot < 0 + length controllers.slots)
        → (if (match_from 0 controllers.slots key (slot_count, role_none)).0 == slot_count
            then none
            else some (match_from 0 controllers.slots key (slot_count, role_none)))
          ≡ found
    from none e bound = rw e refl
    from (some (slot, role)) e bound =
        let inside : slot < 5 = omega (arith, bound slot role refl, t.count) in
        let there : (slot == slot_count) ≡ false = ground arith in rw (e, there) refl
