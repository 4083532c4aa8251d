-- ===== src/UsbDescriptors/Strings.antt =====
-- String descriptors of firmware/usb_descriptors.c fit their buffer of 64 units.
use picobridge.Prelude.{ℕ, zero, suc, ◌≤◌, ◌≡◌, arith, some, List, [], ◌∷◌, length}
use picobridge.Prelude.Text.{codes}
use picobridge.UsbDescriptors.{Identity, copy, string_units, string_descriptor}

length-copy : (room : ℕ) (s : List ℕ) → length (copy room s) ≤ room
unfolding copy
length-copy zero s = omega arith
length-copy (suc room) [] = omega arith
length-copy (suc room) (c ∷ s) = ground (arith, length-copy room s)

length-string_units : (s : List ℕ) → length (string_units s) ≤ 64
unfolding string_units
length-string_units s = omega (arith, length-copy 63 s)

-- Whatever strings are set and asked for, the descriptor fits the buffer that it is written to.
pub descriptor_fits :
    (identity : Identity) (index langid : ℕ) (units : List ℕ)
    → string_descriptor identity index langid ≡ some units
    → length units ≤ 64
unfolding string_descriptor
descriptor_fits identity index langid units h = ground (
  arith,
  length-string_units (codes "Local PicoBridge prototype"),
  length-string_units identity.product,
  length-string_units identity.serial,
)
