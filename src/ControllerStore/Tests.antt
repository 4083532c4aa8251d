-- ===== src/ControllerStore/Tests.antt =====
-- Runs of the trust store on small inputs, and the theorems at concrete inputs.
use picobridge.Prelude.{
  ℕ, ◌<◌, ◌≡◌, refl, arith, none, some, List, [], ◌∷◌, ◌++◌, replicate, get_or, All,
}
use picobridge.ControllerStore.Types.{
  Store, ok, empty_slot, role_admin, role_operator, role_recovery_admin,
}
use picobridge.ControllerStore.Memory.{record_bytes, covered_bytes, le_bytes}
use picobridge.ControllerStore.Store.{
  any_bit, key_is_zero, any_difference, ct_equal, crc32, crc_loop, crc_bits, empty, initialise,
  encode, sealed, record_valid,
}
use picobridge.ControllerStore.Admin
use picobridge.ControllerStore.Admin.{find, find_from, is_admin, free_from, fill}
use picobridge.ControllerStore.Valid.{IsTrusted}
use picobridge.ControllerStore.Check.{IsKey}
use picobridge.ControllerStore.Boot.{record_valid-IsTrusted, record_valid-encode}
use picobridge.ControllerStore.Trust.{initialise-IsTrusted}
use picobridge.ControllerStore.History.{
  add, revoke, change, history, history-IsTrusted, history_of_others,
}
use picobridge.ControllerStore.Lookup.{find-add, find-revoke}

-- The check value of this CRC, over the digits 1 to 9.
crc32_of_digits : crc32 (49 ∷ 50 ∷ 51 ∷ 52 ∷ 53 ∷ 54 ∷ 55 ∷ 56 ∷ 57 ∷ []) ≡ 0xcbf43926
unfolding crc32 crc_loop crc_bits
crc32_of_digits = refl

abbrev key_of : ℕ → List ℕ
key_of b = b ∷ replicate 31 0

key_of-IsKey : (b : ℕ) → b < 256 → IsKey (key_of b)
unfolding replicate
key_of-IsKey b h = record { size = refl; bytes = ground arith }

abbrev blank : Store
blank = empty

abbrev fresh : Store
fresh = (initialise blank (key_of 9)).1

fresh-IsTrusted : IsTrusted fresh
unfolding initialise key_is_zero any_bit replicate
fresh-IsTrusted = initialise-IsTrusted blank (key_of 9) (key_of-IsKey 9 (omega arith)) refl

history-IsTrusted_example :
    IsTrusted (history fresh (add 0 (key_of 5) role_operator ∷ revoke 0 1 ∷ []))
    × (get_or (history fresh (add 0 (key_of 5) role_operator ∷ revoke 0 1 ∷ [])).slots 0 empty_slot
        ≡ get_or fresh.slots 0 empty_slot)
history-IsTrusted_example =
    history-IsTrusted fresh (add 0 (key_of 5) role_operator ∷ revoke 0 1 ∷ [])
      (key_of-IsKey 5 (omega arith), (tt, tt)) fresh-IsTrusted

history_of_others_example : history fresh (add 1 (key_of 5) role_admin ∷ []) ≡ fresh
unfolding is_admin initialise key_is_zero any_bit empty replicate
history_of_others_example =
    history_of_others fresh (add 1 (key_of 5) role_admin ∷ []) (key_of-IsKey 5 (omega arith), tt)
      fresh-IsTrusted (refl, tt)

added_five : (Admin.add fresh 0 (key_of 5) role_operator).status ≡ ok
unfolding Admin.add fill find find_from free_from is_admin initialise key_is_zero any_bit ct_equal
    any_difference empty replicate
added_five = refl

find-add_example :
    (slot : ℕ) × ((Admin.add fresh 0 (key_of 5) role_operator).slot ≡ some slot)
    × (find fresh (key_of 5) ≡ none)
    × (find (Admin.add fresh 0 (key_of 5) role_operator).store (key_of 5)
        ≡ some (slot, role_operator))
find-add_example =
    find-add fresh 0 (key_of 5) role_operator fresh-IsTrusted (key_of-IsKey 5 (omega arith))
      added_five

abbrev two : Store
two = history fresh (add 0 (key_of 5) role_operator ∷ [])

two-IsTrusted : IsTrusted two
two-IsTrusted =
    (history-IsTrusted fresh (add 0 (key_of 5) role_operator ∷ [])
      (key_of-IsKey 5 (omega arith), tt) fresh-IsTrusted).0

revoked_one : (Admin.revoke two 0 1).0 ≡ ok
unfolding history change Admin.revoke Admin.add fill find find_from free_from is_admin initialise
    key_is_zero any_bit ct_equal any_difference empty replicate
revoked_one = refl

find-revoke_example :
    (find (Admin.revoke two 0 1).1 (get_or two.slots 1 empty_slot).public_key ≡ none)
    × (find (Admin.revoke two 0 1).1 (get_or two.slots 0 empty_slot).public_key
        ≡ some (0, role_recovery_admin))
find-revoke_example = find-revoke two 0 1 two-IsTrusted revoked_one

abbrev sector : List ℕ
sector = record_bytes (sealed fresh) ++ replicate 12 0xff

sector_written : encode fresh 200 ≡ some sector
unfolding encode
sector_written = refl

record_valid-encode_example : record_valid (some sector) ≡ some fresh
record_valid-encode_example = record_valid-encode fresh 200 sector fresh-IsTrusted sector_written

record_valid-IsTrusted_example : IsTrusted fresh
record_valid-IsTrusted_example =
    record_valid-IsTrusted sector fresh sector_bytes record_valid-encode_example
  where
    sector_bytes : All (λ b. b < 256) sector
    sector_bytes =
        unfold record_bytes covered_bytes le_bytes sealed crc32 initialise key_is_zero any_bit empty
          replicate in
        ground arith
