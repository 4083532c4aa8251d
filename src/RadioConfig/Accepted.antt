-- ===== src/RadioConfig/Accepted.antt =====
-- What the parsers of firmware/radio/radio_config.c accept.
use picobridge.Prelude.{
  ℕ, zero, suc, ◌+◌, ◌≤◌, ◌≡◌, ◌↔◌, inl, inr, refl, sym, ◌∙◌, arith, Bool, true, false, none, some,
  List, [], ◌∷◌, length, take, drop, length-take, length-drop, Option-cases,
}
use mathlib.Core.Path.{subst}
use picobridge.RadioConfig.Pieces.{drop_more}
use picobridge.RadioConfig.{
  Config, Fields, Schema, schema_1, schema_2, radio_sector_size, le16, read_fields, header_ok,
  certs_ok, lengths_ok, all_printable, contents_ok, read_config, parse_common, parse, parse2,
}

passed :
    (schema : Schema) (s : List ℕ) (c : Config)
    → parse_common schema s ≡ some c
    → (header_ok schema s ≡ true)
      × (lengths_ok schema (read_fields s) (length s) ≡ true)
      × (contents_ok (read_fields s) s ≡ true)
      × (read_config (read_fields s) s ≡ c)
unfolding parse_common
passed schema s c h = (ground arith, ground arith, ground arith, ground arith)

-- A record that fits its fields: an ssid and a psk of printable ASCII within the arrays that hold
-- them and their closing zeros, and a certificate and a key that lie in the sector.
pub record IsConfig (schema : Schema) (c : Config) : Type 0 where
  pub ssid_some : 1 ≤ length c.ssid
  pub ssid_fits : length c.ssid ≤ 32
  pub psk_some : schema.psk_min ≤ length c.psk
  pub psk_fits : length c.psk ≤ 63
  pub ssid_printable : all_printable c.ssid ≡ true
  pub psk_printable : all_printable c.psk ≡ true
  pub cert_fits : length c.cert ≤ 2048
  pub key_fits : length c.key ≤ 1024
  pub both_or_neither : (length c.cert ≡ 0) ↔ (length c.key ≡ 0)
  pub in_sector :
      24 + length c.ssid + length c.psk + length c.cert + length c.key ≤ radio_sector_size

-- The tests on the lengths, as a record.
record IsMeasured (schema : Schema) (f : Fields) (n : ℕ) : Type 0 where
  ssid_some : 1 ≤ f.ssid_len
  ssid_fits : f.ssid_len ≤ 32
  psk_some : schema.psk_min ≤ f.psk_len
  psk_fits : f.psk_len ≤ 63
  cert_fits : f.cert_len ≤ 2048
  key_fits : f.key_len ≤ 1024
  both_or_neither : (f.cert_len ≡ 0) ↔ (f.key_len ≡ 0)
  in_sector : 24 + f.ssid_len + f.psk_len + f.cert_len + f.key_len ≤ n

certs_both :
    (mandatory : Bool) (f : Fields)
    → certs_ok mandatory f ≡ true
    → (f.cert_len ≡ 0) ↔ (f.key_len ≡ 0)
unfolding certs_ok
certs_both true f h = (λ e. absurd (ground arith), λ e. absurd (ground arith))
certs_both false f h = (λ e. ground arith, λ e. ground arith)

certs_fit :
    (mandatory : Bool) (f : Fields)
    → certs_ok mandatory f ≡ true
    → (f.cert_len ≤ 2048) × (f.key_len ≤ 1024)
unfolding certs_ok
certs_fit true f h = (ground arith, ground arith)
certs_fit false f h = (ground arith, ground arith)

lengths_ok-IsMeasured :
    (schema : Schema) (f : Fields) (n : ℕ) → lengths_ok schema f n ≡ true → IsMeasured schema f n
unfolding lengths_ok
lengths_ok-IsMeasured schema f n h =
    let certs : certs_ok schema.certs_mandatory f ≡ true = ground arith in
    record {
      ssid_some = ground arith;
      ssid_fits = ground arith;
      psk_some = ground arith;
      psk_fits = ground arith;
      cert_fits = (certs_fit schema.certs_mandatory f certs).0;
      key_fits = (certs_fit schema.certs_mandatory f certs).1;
      both_or_neither = certs_both schema.certs_mandatory f certs;
      in_sector = ground arith;
    }

printable_none : (n : ℕ) → all_printable (take n []) ≡ true
unfolding all_printable
printable_none zero = refl
printable_none (suc n) = refl

printable_split :
    (q n m : ℕ) (xs : List ℕ)
    → q ≡ n + m
    → all_printable (take q xs) ≡ true
    → (all_printable (take n xs) ≡ true) × (all_printable (take m (drop n xs)) ≡ true)
unfolding all_printable
printable_split q zero m xs e h =
    (refl, subst (λ k. all_printable (take k xs) ≡ true) (omega arith) h)
printable_split q (suc n) m [] e h = (refl, printable_none m)
printable_split zero (suc n) m (x ∷ xs) e h = absurd (omega arith)
printable_split (suc q) (suc n) m (x ∷ xs) e h =
    let rest = printable_split q n m xs (omega arith) (ground arith) in (ground arith, rest.1)

-- A piece of the sector has the length that is asked for.
piece : (n from : ℕ) (s : List ℕ) → from + n ≤ length s → length (take n (drop from s)) ≡ n
piece n from s h = length-take n (drop from s) (omega (arith, length-drop from s))

header_size : (schema : Schema) (s : List ℕ) → header_ok schema s ≡ true → length s ≡ 4096
unfolding header_ok
header_size schema s h = ground arith

config_lengths :
    (schema : Schema) (s : List ℕ)
    → IsMeasured schema (read_fields s) (length s)
    → (length (read_config (read_fields s) s).ssid ≡ (read_fields s).ssid_len)
      × (length (read_config (read_fields s) s).psk ≡ (read_fields s).psk_len)
      × (length (read_config (read_fields s) s).cert ≡ (read_fields s).cert_len)
      × (length (read_config (read_fields s) s).key ≡ (read_fields s).key_len)
unfolding read_config
config_lengths schema s l =
    let f = read_fields s in
    (
      piece f.ssid_len 24 s (omega (arith, l.in_sector)),
      piece f.psk_len (24 + f.ssid_len) s (omega (arith, l.in_sector)),
      piece f.cert_len (24 + f.ssid_len + f.psk_len) s (omega (arith, l.in_sector)),
      piece f.key_len (24 + f.ssid_len + f.psk_len + f.cert_len) s (omega (arith, l.in_sector)),
    )

config_printable :
    (s : List ℕ)
    → contents_ok (read_fields s) s ≡ true
    → (all_printable (read_config (read_fields s) s).ssid ≡ true)
      × (all_printable (read_config (read_fields s) s).psk ≡ true)
unfolding contents_ok read_config
config_printable s h =
    let parts =
      printable_split ((read_fields s).ssid_len + (read_fields s).psk_len) (read_fields s).ssid_len
        (read_fields s).psk_len (drop 24 s) refl (ground arith) in
    (
      parts.0,
      subst (λ l. all_printable (take (read_fields s).psk_len l) ≡ true)
          (sym (drop_more (24 + (read_fields s).ssid_len) 24 (read_fields s).ssid_len s refl))
          parts.1,
    )

read-IsConfig :
    (schema : Schema) (s : List ℕ)
    → length s ≡ 4096
    → IsMeasured schema (read_fields s) (length s)
    → contents_ok (read_fields s) s ≡ true
    → IsConfig schema (read_config (read_fields s) s)
read-IsConfig schema s n l h =
    let e = config_lengths schema s l in
    let p = config_printable s h in
    record {
      ssid_some = omega (arith, e.0, l.ssid_some);
      ssid_fits = omega (arith, e.0, l.ssid_fits);
      psk_some = omega (arith, e.1, l.psk_some);
      psk_fits = omega (arith, e.1, l.psk_fits);
      ssid_printable = p.0;
      psk_printable = p.1;
      cert_fits = omega (arith, e.2, l.cert_fits);
      key_fits = omega (arith, e.3, l.key_fits);
      both_or_neither = (
        λ z. e.3 ∙ l.both_or_neither.0 (sym e.2 ∙ z),
        λ z. e.2 ∙ l.both_or_neither.1 (sym e.3 ∙ z),
      );
      in_sector = omega (arith, e.0, e.1, e.2, e.3, l.in_sector);
    }

-- Whatever sector is parsed, under either schema: a record that is accepted has an ssid of 1 to 32
-- and a psk of at most 63 printable characters, the psk not shorter than the schema's minimum, both
-- a certificate and a key or neither, and all four lie in the sector.
pub parse-IsConfig :
    (schema : Schema) (s : List ℕ) (c : Config) → parse_common schema s ≡ some c → IsConfig schema c
parse-IsConfig schema s c h =
    let p = passed schema s c h in
    subst (IsConfig schema) p.3 (
      read-IsConfig schema s (header_size schema s p.0)
        (lengths_ok-IsMeasured schema (read_fields s) (length s) p.1) p.2)

numbered : (schema : Schema) (s : List ℕ) → header_ok schema s ≡ true → le16 s 8 ≡ schema.number
unfolding header_ok
numbered schema s h = ground arith

-- A sector that one schema accepts, the other does not.
pub schemas_apart : (s : List ℕ) (c : Config) → parse s ≡ some c → parse2 s ≡ none
schemas_apart s c h = elim (Option-cases (parse2 s)) [
  | inl refused ↦ refused
  | inr (other, e) ↦ absurd (
      omega (
        arith,
        numbered schema_1 s (passed schema_1 s c h).0,
        numbered schema_2 s (passed schema_2 s other e).0,
      ))
]
