-- ===== src/RadioConfig/RoundTrip.antt =====
-- What `radio_config_build2` of firmware/radio/radio_config.c writes, `radio_config_parse2` reads.
use picobridge.Prelude.{
  ℕ, ◌+◌, ◌-◌, ◌≤◌, ◌≡◌, refl, sym, ap, ◌∙◌, arith, true, some, List, [], ◌++◌, length, take, drop,
  length-append, length-replicate, replicate, ◌==◌, ==_iff, u32, bit_xor,
}
use mathlib.Core.List.{append_assoc}
use picobridge.ControllerStore.Memory.{le_bytes, le_value}
use picobridge.ControllerStore.Memory.RoundTrip.{take_first, drop_past}
use picobridge.ControllerStore.Store.{crc_loop}
use picobridge.DhcpWire.{same_bytes}
use picobridge.RadioConfig.{
  Fields, schema_2, le16, read_fields, header_ok, certs_ok, lengths_ok, all_printable, all_erased,
  contents_ok, read_config, parse_common, parse2, inputs_ok, lens, build_crc, image_of, build2,
}
use picobridge.RadioConfig.Pieces.{
  crc_loop-append, all_printable-append, all_erased-replicate, take_past, drop_more,
}

-- What `build2` has tested of its arguments.
record IsInput (ssid psk : List ℕ) : Type 0 where
  ssid_some : 1 ≤ length ssid
  ssid_fits : length ssid ≤ 32
  psk_some : 8 ≤ length psk
  psk_fits : length psk ≤ 63
  ssid_printable : all_printable ssid ≡ true
  psk_printable : all_printable psk ≡ true

inputs_ok-IsInput : (ssid psk : List ℕ) → inputs_ok ssid psk ≡ true → IsInput ssid psk
unfolding inputs_ok
inputs_ok-IsInput ssid psk h = record {
  ssid_some = ground arith;
  ssid_fits = ground arith;
  psk_some = ground arith;
  psk_fits = ground arith;
  ssid_printable = ground arith;
  psk_printable = ground arith;
}

module _ (ssid psk : List ℕ) (v : IsInput ssid psk) where
  abbrev fill : List ℕ
  fill = replicate (4096 - (24 + length ssid + length psk)) 255

  abbrev strings : List ℕ
  strings = ssid ++ (psk ++ fill)

  abbrev image : List ℕ
  image = image_of ssid psk

  behind_header : drop 24 image ≡ strings
  unfolding image_of le_bytes lens
  behind_header = refl

  behind_crc : drop 16 image ≡ lens ssid psk ++ strings
  unfolding image_of le_bytes lens
  behind_crc = refl

  length-image : length image ≡ 4096
  unfolding image_of le_bytes lens
  length-image = omega (
    arith,
    length-append ssid (psk ++ fill),
    length-append psk fill,
    length-replicate {A = ℕ} (4096 - (24 + length ssid + length psk)) 255,
    v.ssid_fits,
    v.psk_fits,
  )

  fields_of : Fields
  fields_of = record {
    ssid_len = length ssid;
    psk_len = length psk;
    cert_len = 0;
    key_len = 0;
    total = 24 + length ssid + length psk;
    stored = build_crc ssid psk;
  }

  fields_same : read_fields image ≡ fields_of
  unfolding read_fields le16 image_of lens le_bytes le_value build_crc fields_of
  fields_same = λ i. record {
    ssid_len = ssid_same i;
    psk_len = psk_same i;
    cert_len = 0;
    key_len = 0;
    total = total_same i;
    stored = stored_same i;
  }
    where
      ssid_same : le16 image 16 ≡ length ssid
      ssid_same = omega (arith, v.ssid_fits)

      psk_same : le16 image 18 ≡ length psk
      psk_same = omega (arith, v.psk_fits)

      total_same : le16 image 10 ≡ 24 + length ssid + length psk
      total_same = omega (arith, v.ssid_fits, v.psk_fits)

      stored_same : le_value (take 4 (drop 12 image)) ≡ build_crc ssid psk
      stored_same = omega arith

  header_good : header_ok schema_2 image ≡ true
  unfolding header_ok le16 image_of le_bytes le_value same_bytes
  header_good = rw ((==_iff _ _).1 length-image) refl

  lengths_good : lengths_ok schema_2 fields_of 4096 ≡ true
  unfolding lengths_ok certs_ok fields_of
  lengths_good = ground (arith, v.ssid_some, v.ssid_fits, v.psk_some, v.psk_fits)

  strings_taken : take (length ssid + length psk) strings ≡ ssid ++ psk
  strings_taken =
      ap (take (length ssid + length psk)) (sym (append_assoc ssid psk fill))
      ∙ take_first (length ssid + length psk) (ssid ++ psk) fill (length-append ssid psk)

  strings_behind : drop (length ssid + length psk) strings ≡ fill
  strings_behind =
      drop_past (length ssid + length psk) (length psk) ssid (psk ++ fill) refl
      ∙ drop_past (length psk) 0 psk fill (omega arith)

  covered :
      take (24 + length ssid + length psk - 16) (drop 16 image) ≡ lens ssid psk ++ (ssid ++ psk)
  covered =
      ap (take (24 + length ssid + length psk - 16)) behind_crc
      ∙ take_past (24 + length ssid + length psk - 16) (length ssid + length psk) (lens ssid psk)
          strings eight
      ∙ ap (λ l. lens ssid psk ++ l) strings_taken
    where
      eight :
          24 + length ssid + length psk - 16 ≡ length (lens ssid psk) + (length ssid + length psk)
      eight = unfold lens le_bytes in omega arith

  crc_same :
      u32 (bit_xor (crc_loop 0xffffffff (lens ssid psk ++ (ssid ++ psk))) 0xffffffff)
      ≡ build_crc ssid psk
  unfolding build_crc
  crc_same =
      ap (λ c. u32 (bit_xor c 0xffffffff))
        (sym (crc_loop-append (lens ssid psk) (ssid ++ psk) 0xffffffff)
          ∙ sym (crc_loop-append ssid psk (crc_loop 0xffffffff (lens ssid psk))))

  erased_good : all_erased (drop (24 + length ssid + length psk) image) ≡ true
  erased_good =
      ap all_erased (
        drop_more (24 + length ssid + length psk) 24 (length ssid + length psk) image (omega arith)
        ∙ ap (drop (length ssid + length psk)) behind_header
        ∙ strings_behind)
      ∙ all_erased-replicate (4096 - (24 + length ssid + length psk))

  crc_good :
      (u32 (
          bit_xor
            (crc_loop 0xffffffff (take (24 + length ssid + length psk - 16) (drop 16 image)))
            0xffffffff)
        == build_crc ssid psk)
      ≡ true
  crc_good =
      (==_iff _ _).1 (ap (λ l. u32 (bit_xor (crc_loop 0xffffffff l) 0xffffffff)) covered ∙ crc_same)

  contents_good : contents_ok fields_of image ≡ true
  unfolding contents_ok fields_of
  contents_good =
      rw
        (
          behind_header,
          strings_taken,
          all_printable-append ssid psk v.ssid_printable v.psk_printable,
          erased_good,
          crc_good,
        )
        refl

  config_same : read_config fields_of image ≡ record { ssid = ssid; psk = psk; cert = []; key = [] }
  unfolding read_config fields_of
  config_same = λ i. record { ssid = ssid_same i; psk = psk_same i; cert = []; key = [] }
    where
      ssid_same : take (length ssid) (drop 24 image) ≡ ssid
      ssid_same =
          ap (take (length ssid)) behind_header ∙ take_first (length ssid) ssid (psk ++ fill) refl

      skipped : drop (24 + length ssid) image ≡ psk ++ fill
      skipped =
          drop_more (24 + length ssid) 24 (length ssid) image refl
          ∙ ap (drop (length ssid)) behind_header
          ∙ drop_past (length ssid) 0 ssid (psk ++ fill) (omega arith)

      psk_same : take (length psk) (drop (24 + length ssid) image) ≡ psk
      psk_same = ap (take (length psk)) skipped ∙ take_first (length psk) psk fill refl

  parse2-image : parse2 image ≡ some (record { ssid = ssid; psk = psk; cert = []; key = [] })
  unfolding parse_common
  parse2-image =
      rw (fields_same, header_good, length-image, lengths_good, contents_good, config_same) refl

built_image :
    (ssid psk image : List ℕ)
    → build2 ssid psk ≡ some image
    → (inputs_ok ssid psk ≡ true) × (image_of ssid psk ≡ image)
unfolding build2
built_image ssid psk image h = (ground arith, ground arith)

-- The image fills the sector.
pub length-build2 : (ssid psk image : List ℕ) → build2 ssid psk ≡ some image → length image ≡ 4096
length-build2 ssid psk image h =
    let built = built_image ssid psk image h in
    ap length (sym built.1) ∙ length-image ssid psk (inputs_ok-IsInput ssid psk built.0)

-- The image that is built of an ssid and a psk is read back as a record of them, with no
-- certificate and no key.
pub parse2-build2 :
    (ssid psk image : List ℕ)
    → build2 ssid psk ≡ some image
    → parse2 image ≡ some (record { ssid = ssid; psk = psk; cert = []; key = [] })
parse2-build2 ssid psk image h =
    let built = built_image ssid psk image h in
    ap parse2 (sym built.1) ∙ parse2-image ssid psk (inputs_ok-IsInput ssid psk built.0)
