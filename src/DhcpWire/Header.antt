-- ===== src/DhcpWire/Header.antt =====
-- The fixed part of a DHCP message, by RFC 2131, against the tests of firmware/radio/dhcp_wire.c.
use picobridge.Prelude.{
  ℕ, sym, ◌∙◌, Bool, ◌%◌, ◌≤◌, ◌≡◌, ◌↔◌, refl, ap, arith, true, false, not, ◌&&◌, List, [], ◌∷◌,
  length, take, drop, replicate, get_or, ◌==◌, ==_iff, All, length-take, length-drop, bit_and,
}
use picobridge.Prelude.Masks.{bit_or-zero_iff, bit_and-one}
use picobridge.DhcpWire.{same_bytes, join_bits, header_fits}

-- The header of a message from a client on an Ethernet that has come through no relay: a request
-- (op 1) of hardware type 1 with an address of 6 bytes, 0 hops and relay address 0.0.0.0, the magic
-- cookie 99.130.83.99, and a hardware address that is neither a group's nor zero.
pub record IsHeader (p : List ℕ) : Type 0 where
  pub op : get_or p 0 0 ≡ 1
  pub htype : get_or p 1 0 ≡ 1
  pub hlen : get_or p 2 0 ≡ 6
  pub hops : get_or p 3 0 ≡ 0
  pub giaddr : take 4 (drop 24 p) ≡ 0 ∷ 0 ∷ 0 ∷ 0 ∷ []
  pub cookie : take 4 (drop 236 p) ≡ 99 ∷ 130 ∷ 83 ∷ 99 ∷ []
  pub individual : get_or p 28 0 % 2 ≡ 0
  pub chaddr : All (λ b. b ≡ 0) (take 6 (drop 28 p)) → ⊥

same_bytes_iff : (xs ys : List ℕ) → length xs ≡ length ys → (same_bytes xs ys ≡ true) ↔ (xs ≡ ys)
unfolding same_bytes
same_bytes_iff [] [] e = (λ h. refl, λ h. refl)
same_bytes_iff [] (y ∷ ys) e = absurd (omega arith)
same_bytes_iff (x ∷ xs) [] e = absurd (omega arith)
same_bytes_iff (x ∷ xs) (y ∷ ys) e =
    let rest = same_bytes_iff xs ys (omega arith) in
    (λ h. ground (arith, rest), λ h. ground (arith, rest))

join_bits-zero_iff : (bytes : List ℕ) → (join_bits bytes ≡ 0) ↔ All (λ b. b ≡ 0) bytes
unfolding join_bits
join_bits-zero_iff [] = (λ h. tt, λ h. refl)
join_bits-zero_iff (b ∷ bytes) =
    let both = bit_or-zero_iff b (join_bits bytes) in
    let rest = join_bits-zero_iff bytes in
    (λ h. ((both.0 h).0, rest.0 (both.0 h).1), λ h. both.1 (h.0, rest.1 h.1))

nonzero_iff : (n : ℕ) → (not (n == 0) ≡ true) ↔ (n ≡ 0 → ⊥)
nonzero_iff n = (λ h e. ground arith, λ h. ground (arith, h))

-- Eight tests one after the other.
tests :
    (a b c d e f g h : Bool)
    → (a && b && c && d && e && f && g && h ≡ true) ↔ (
        (a ≡ true)
        × (b ≡ true)
        × (c ≡ true)
        × (d ≡ true)
        × (e ≡ true)
        × (f ≡ true)
        × (g ≡ true)
        × (h ≡ true))
tests true true true true true true true h =
    (λ x. (refl, refl, refl, refl, refl, refl, refl, x), λ x. x.7)
tests true true true true true true false h = (λ x. cc, λ x. cc)
tests true true true true true false g h = (λ x. cc, λ x. cc)
tests true true true true false f g h = (λ x. cc, λ x. cc)
tests true true true false e f g h = (λ x. cc, λ x. cc)
tests true true false d e f g h = (λ x. cc, λ x. cc)
tests true false c d e f g h = (λ x. cc, λ x. cc)
tests false b c d e f g h = (λ x. cc, λ x. cc)

header_tests :
    (p : List ℕ)
    → (header_fits p ≡ true) ↔ (
        ((get_or p 0 0 == 1) ≡ true)
        × ((get_or p 1 0 == 1) ≡ true)
        × ((get_or p 2 0 == 6) ≡ true)
        × ((get_or p 3 0 == 0) ≡ true)
        × (same_bytes (take 4 (drop 24 p)) (replicate 4 0) ≡ true)
        × (same_bytes (take 4 (drop 236 p)) (0x63 ∷ 0x82 ∷ 0x53 ∷ 0x63 ∷ []) ≡ true)
        × ((bit_and (get_or p 28 0) 1 == 0) ≡ true)
        × (not (join_bits (take 6 (drop 28 p)) == 0) ≡ true))
unfolding header_fits
header_tests p = tests _ _ _ _ _ _ _ _

-- A message of at least 240 bytes passes the tests exactly when it has that header.
pub header_fits_iff : (p : List ℕ) → 240 ≤ length p → (header_fits p ≡ true) ↔ IsHeader p
header_fits_iff p long = (forth, back)
  where
    relay :
        (same_bytes (take 4 (drop 24 p)) (replicate 4 0) ≡ true)
        ↔ (take 4 (drop 24 p) ≡ 0 ∷ 0 ∷ 0 ∷ 0 ∷ [])
    relay =
        unfold replicate in
        same_bytes_iff (take 4 (drop 24 p)) (0 ∷ 0 ∷ 0 ∷ 0 ∷ [])
          (length-take 4 (drop 24 p) (omega (arith, length-drop 24 p)))

    magic :
        (same_bytes (take 4 (drop 236 p)) (0x63 ∷ 0x82 ∷ 0x53 ∷ 0x63 ∷ []) ≡ true)
        ↔ (take 4 (drop 236 p) ≡ 99 ∷ 130 ∷ 83 ∷ 99 ∷ [])
    magic =
        same_bytes_iff (take 4 (drop 236 p)) (0x63 ∷ 0x82 ∷ 0x53 ∷ 0x63 ∷ [])
          (length-take 4 (drop 236 p) (omega (arith, length-drop 236 p)))

    zero_mac : (join_bits (take 6 (drop 28 p)) ≡ 0) ↔ All (λ b. b ≡ 0) (take 6 (drop 28 p))
    zero_mac = join_bits-zero_iff (take 6 (drop 28 p))

    parity : (bit_and (get_or p 28 0) 1 == 0) ≡ (get_or p 28 0 % 2 == 0)
    parity = ap (λ b. b == 0) (bit_and-one (get_or p 28 0))

    forth : header_fits p ≡ true → IsHeader p
    forth h =
        let t = (header_tests p).0 h in
        record {
          op = (==_iff _ _).0 t.0;
          htype = (==_iff _ _).0 t.1;
          hlen = (==_iff _ _).0 t.2;
          hops = (==_iff _ _).0 t.3;
          giaddr = relay.0 t.4;
          cookie = magic.0 t.5;
          individual = (==_iff _ _).0 (sym parity ∙ t.6);
          chaddr = λ zeros. (nonzero_iff _).0 t.7 (zero_mac.1 zeros);
        }

    back : IsHeader p → header_fits p ≡ true
    back v = (header_tests p).1 (
      (==_iff _ _).1 v.op,
      (==_iff _ _).1 v.htype,
      (==_iff _ _).1 v.hlen,
      (==_iff _ _).1 v.hops,
      relay.1 v.giaddr,
      magic.1 v.cookie,
      parity ∙ (==_iff _ _).1 v.individual,
      (nonzero_iff _).1 (λ e. v.chaddr (zero_mac.0 e)),
    )
