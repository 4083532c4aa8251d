-- ===== src/UsbDescriptors.antt =====
-- The USB descriptors: firmware/usb_descriptors.c. A C string is the list of its bytes before the
-- closing zero, and an array of 16-bit units the list of those that are sent.
pub mod Strings
mod Tests
use picobridge.Prelude.{
  ℕ, zero, suc, ◌+◌, ◌*◌, Bool, not, Option, none, some, List, [], ◌∷◌, length, ◌==◌, if◌then◌else◌,
  bit_or,
}
use picobridge.Prelude.Text.{codes}

-- The two static strings.
pub record Identity : Type 0 where
  pub serial : List ℕ
  pub product : List ℕ

abbrev pub unset : Identity
unset = record { serial = codes "UNSET"; product = codes "PicoBridge idle / CYW43 FAIL" }

-- At most `room` bytes of a string.
unfoldable pub copy : ℕ → List ℕ → List ℕ
copy zero s = []
copy (suc room) [] = []
copy (suc room) (c ∷ s) = let rest = copy room s in if c == 0 then [] else c ∷ rest

-- A serial number that is NULL is empty.
unfoldable pub set_identity : Option (List ℕ) → Bool → Identity
set_identity serial radio_ok = record {
  serial = elim serial [ none ↦ [] | some s ↦ copy 32 s ];
  product =
      if radio_ok then codes "PicoBridge idle / CYW43 OK" else codes "PicoBridge idle / CYW43 FAIL";
}

-- The string descriptor of up to 63 characters, with its header.
unfoldable pub string_units : List ℕ → List ℕ
string_units s = let chars = copy 63 s in bit_or 0x300 (2 * length chars + 2) ∷ chars

unfoldable pub string_descriptor : Identity → ℕ → ℕ → Option (List ℕ)
string_descriptor identity index langid =
    if index == 0
    then some (0x304 ∷ 0x409 ∷ [])
    else if not (langid == 0x409)
    then none
    else if index == 1
    then some (string_units (codes "Local PicoBridge prototype"))
    else if index == 2
    then some (string_units identity.product)
    else if index == 3
    then some (string_units identity.serial)
    else none

abbrev pub device : List ℕ
device = 18 ∷ 1 ∷ 0 ∷ 2 ∷ 0 ∷ 0 ∷ 0 ∷ 64 ∷ 0xfe ∷ 0xca ∷ 0x10 ∷ 0x40 ∷ 1 ∷ 0 ∷ 1 ∷ 2 ∷ 3 ∷ 1 ∷ []

abbrev pub keyboard_report : List ℕ
keyboard_report =
    0x05 ∷ 0x01 ∷ 0x09 ∷ 0x06 ∷ 0xa1 ∷ 0x01 ∷ 0x05 ∷ 0x07 ∷ 0x19 ∷ 0xe0 ∷ 0x29 ∷ 0xe7 ∷ 0x15 ∷ 0x00
    ∷ 0x25 ∷ 0x01 ∷ 0x75 ∷ 0x01 ∷ 0x95 ∷ 0x08 ∷ 0x81 ∷ 0x02 ∷ 0x95 ∷ 0x01 ∷ 0x75 ∷ 0x08 ∷ 0x81
    ∷ 0x01 ∷ 0x95 ∷ 0x05 ∷ 0x75 ∷ 0x01 ∷ 0x05 ∷ 0x08 ∷ 0x19 ∷ 0x01 ∷ 0x29 ∷ 0x05 ∷ 0x91 ∷ 0x02
    ∷ 0x95 ∷ 0x01 ∷ 0x75 ∷ 0x03 ∷ 0x91 ∷ 0x01 ∷ 0x95 ∷ 0x06 ∷ 0x75 ∷ 0x08 ∷ 0x15 ∷ 0x00 ∷ 0x25
    ∷ 0x65 ∷ 0x05 ∷ 0x07 ∷ 0x19 ∷ 0x00 ∷ 0x29 ∷ 0x65 ∷ 0x81 ∷ 0x00 ∷ 0xc0 ∷ []

abbrev pub configuration : List ℕ
configuration =
    9
    ∷ 2
    ∷ 34
    ∷ 0
    ∷ 1
    ∷ 1
    ∷ 0
    ∷ 0x80
    ∷ 250
    ∷ 9
    ∷ 4
    ∷ 0
    ∷ 0
    ∷ 1
    ∷ 3
    ∷ 1
    ∷ 1
    ∷ 0
    ∷ 9
    ∷ 0x21
    ∷ 0x11
    ∷ 0x01
    ∷ 0
    ∷ 1
    ∷ 0x22
    ∷ length keyboard_report
    ∷ 0
    ∷ 7
    ∷ 5
    ∷ 0x81
    ∷ 3
    ∷ 8
    ∷ 0
    ∷ 10
    ∷ []

abbrev pub configuration_descriptor : ℕ → Option (List ℕ)
configuration_descriptor index = if index == 0 then some configuration else none

abbrev pub report_descriptor : ℕ → Option (List ℕ)
report_descriptor number = if number == 0 then some keyboard_report else none
