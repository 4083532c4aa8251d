-- ===== src/ControllerStore/History.antt =====
-- Sequences of changes of the trust store of firmware/controller_store.c.
use picobridge.Prelude.{ℕ, suc, ◌≡◌, refl, ap, ◌∙◌, arith, false, List, [], ◌∷◌, get_or, set, All}
use picobridge.ControllerStore.Types.{Slot, Store, empty_slot}
use picobridge.ControllerStore.Admin
use picobridge.ControllerStore.Admin.{is_admin}
use picobridge.ControllerStore.Valid.{IsTrusted}
use picobridge.ControllerStore.Check.{IsKey}
use picobridge.ControllerStore.Change.{
  with_slot, AddOutcome, added, refused, add-AddOutcome, RevokeOutcome, revoked, kept,
  revoke-RevokeOutcome,
}
use picobridge.ControllerStore.Trust.{add-IsTrusted, revoke-IsTrusted}

-- A call that may change the store, with the caller's slot first.
pub data Change : Type 0 where
  add : ℕ → List ℕ → ℕ → Change
  revoke : ℕ → ℕ → Change

unfoldable pub change : Store → Change → Store
change s (add caller key role) = (Admin.add s caller key role).store
change s (revoke caller target) = (Admin.revoke s caller target).1

unfoldable pub history : Store → List Change → Store
history s [] = s
history s (c ∷ cs) = history (change s c) cs

abbrev pub HasKeys : Change → Type 0
HasKeys (add caller key role) = IsKey key
HasKeys (revoke caller target) = Unit

abbrev pub caller_of : Change → ℕ
caller_of (add caller key role) = caller
caller_of (revoke caller target) = caller

first_slot :
    (s : Store) (i : ℕ) (v : Slot)
    → get_or (with_slot s (suc i) v).slots 0 empty_slot ≡ get_or s.slots 0 empty_slot
first_slot s i v = go s.slots
  where
    go : (slots : List Slot) → get_or (set slots (suc i) v) 0 empty_slot ≡ get_or slots 0 empty_slot
    go [] = refl
    go (x ∷ xs) = refl

change-IsTrusted : (s : Store) (c : Change) → HasKeys c → IsTrusted s → IsTrusted (change s c)
unfolding change
change-IsTrusted s (add caller key role) k t = add-IsTrusted s caller key role t k
change-IsTrusted s (revoke caller target) k t = revoke-IsTrusted s caller target t

change_keeps_first :
    (s : Store) (c : Change)
    → HasKeys c
    → IsTrusted s
    → get_or (change s c).slots 0 empty_slot ≡ get_or s.slots 0 empty_slot
unfolding change
change_keeps_first s (add caller key role) k t = from (add-AddOutcome s caller key role t k)
  where
    from :
        AddOutcome s caller key role (Admin.add s caller key role)
        → get_or (Admin.add s caller key role).store.slots 0 empty_slot
          ≡ get_or s.slots 0 empty_slot
    from (refused ne same told) = ap (λ (x : Store). get_or x.slots 0 empty_slot) same
    from (added e a) =
        ap (λ (x : Store). get_or x.slots 0 empty_slot) a.stored
        ∙ first_slot s a.index (record { role = role; public_key = key })
change_keeps_first s (revoke caller target) k t = from (revoke-RevokeOutcome s caller target)
  where
    from :
        RevokeOutcome s caller target (Admin.revoke s caller target)
        → get_or (Admin.revoke s caller target).1.slots 0 empty_slot ≡ get_or s.slots 0 empty_slot
    from (kept ne same) = ap (λ (x : Store). get_or x.slots 0 empty_slot) same
    from (revoked e r) =
        ap (λ (x : Store). get_or x.slots 0 empty_slot) r.stored ∙ first_slot s r.index empty_slot

-- Whatever additions and revocations are asked for, by whomever, a trusted store stays trusted
-- and its first slot, the recovery administrator's, keeps its role and key.
pub history-IsTrusted :
    (s : Store) (cs : List Change)
    → All HasKeys cs
    → IsTrusted s
    → IsTrusted (history s cs)
      × (get_or (history s cs).slots 0 empty_slot ≡ get_or s.slots 0 empty_slot)
unfolding history
history-IsTrusted s [] k t = (t, refl)
history-IsTrusted s (c ∷ cs) k t =
    let rest = history-IsTrusted (change s c) cs k.1 (change-IsTrusted s c k.0 t) in
    (rest.0, rest.1 ∙ change_keeps_first s c k.0 t)

change_of_other :
    (s : Store) (c : Change)
    → HasKeys c
    → IsTrusted s
    → is_admin s (caller_of c) ≡ false
    → change s c ≡ s
unfolding change
change_of_other s (add caller key role) k t h = from (add-AddOutcome s caller key role t k)
  where
    from :
        AddOutcome s caller key role (Admin.add s caller key role)
        → (Admin.add s caller key role).store ≡ s
    from (refused ne same told) = same
    from (added e a) = absurd (ground (arith, a.admin))
change_of_other s (revoke caller target) k t h = from (revoke-RevokeOutcome s caller target)
  where
    from :
        RevokeOutcome s caller target (Admin.revoke s caller target)
        → (Admin.revoke s caller target).1 ≡ s
    from (kept ne same) = same
    from (revoked e r) = absurd (ground (arith, r.admin))

-- Callers that are not administrators change nothing in a trusted store, whatever they ask for.
pub history_of_others :
    (s : Store) (cs : List Change)
    → All HasKeys cs
    → IsTrusted s
    → All (λ (c : Change). is_admin s (caller_of c) ≡ false) cs
    → history s cs ≡ s
unfolding history
history_of_others s [] k t h = refl
history_of_others s (c ∷ cs) k t h =
    ap (λ x. history x cs) (change_of_other s c k.0 t h.0) ∙ history_of_others s cs k.1 t h.1
