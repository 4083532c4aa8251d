-- ===== src/DhcpWire/Reader.antt =====
-- What a DHCP message must be for firmware/radio/dhcp_wire.c to accept it.
use picobridge.Prelude.{
  ℕ, ◌≤◌, ◌≡◌, ◌⊎◌, inl, inr, refl, ap, arith, true, false, not, ◌↔◌, ◌||◌, if◌then◌else◌, Option,
  none, some, List, length, drop, replicate, ltb, ◌==◌, Bool-cases, length-take, length-drop,
}
use mathlib.Core.Path.{subst}
use picobridge.DhcpWire.{
  DhcpRequest, apply_option, scan_options, header_fits, start_of, of_kind, parse, dhcp_max,
}
use picobridge.DhcpWire.Header.{IsHeader, header_fits_iff}
use picobridge.DhcpWire.Options.{Reads, ends, pads, holds, scan_options-Reads_iff}

-- The fields of a request have the sizes of the C structure.
pub record IsSized (r : DhcpRequest) : Type 0 where
  pub mac_size : length r.mac ≡ 6
  pub xid_size : length r.xid ≡ 4
  pub ciaddr_size : length r.ciaddr ≡ 4
  pub requested_size : length r.requested ≡ 4
  pub server_size : length r.server ≡ 4

apply_option-IsSized :
    (r next : DhcpRequest) (opt : ℕ) (payload : List ℕ)
    → apply_option r opt payload ≡ some next
    → IsSized r
    → IsSized next
unfolding apply_option
apply_option-IsSized r next opt payload h v = record {
  mac_size = ground (arith, v.mac_size);
  xid_size = ground (arith, v.xid_size);
  ciaddr_size = ground (arith, v.ciaddr_size);
  requested_size = ground (arith, v.requested_size);
  server_size = ground (arith, v.server_size);
}

Reads-IsSized : (r' r : DhcpRequest) (bytes : List ℕ) → Reads r' r bytes → IsSized r → IsSized r'
Reads-IsSized r' r _ (ends _ rest e) v = subst IsSized e v
Reads-IsSized r' r _ (pads _ rest s) v = Reads-IsSized r' r rest s v
Reads-IsSized r' r _ (holds _ next opt len payload rest ne ne' size e s) v =
    Reads-IsSized r' next rest s (apply_option-IsSized r next opt payload e v)

-- A message that is accepted, and the request that it carries.
pub record IsMessage (p : List ℕ) (r : DhcpRequest) : Type 0 where
  pub long : 240 ≤ length p
  pub short : length p ≤ dhcp_max
  pub header : IsHeader p
  pub options : Reads r (start_of p) (drop 240 p)
  pub known : (r.kind ≡ 1) ⊎ (r.kind ≡ 3)
  pub sized : IsSized r

start_of-IsSized : (p : List ℕ) → 240 ≤ length p → IsSized (start_of p)
unfolding replicate
start_of-IsSized p h = record {
  mac_size = length-take 6 (drop 28 p) (omega (arith, length-drop 28 p));
  xid_size = length-take 4 (drop 4 p) (omega (arith, length-drop 4 p));
  ciaddr_size = length-take 4 (drop 12 p) (omega (arith, length-drop 12 p));
  requested_size = refl;
  server_size = refl;
}

kind_of_kind :
    (o : Option DhcpRequest) (r : DhcpRequest)
    → of_kind o ≡ some r
    → (o ≡ some r) × ((r.kind ≡ 1) ⊎ (r.kind ≡ 3))
kind_of_kind none r h = absurd (ground arith)
kind_of_kind (some found) r h = elim (Bool-cases (found.kind == 1 || found.kind == 3)) [
  | inr other ↦ absurd (ground arith)
  | inl known ↦
      let same : found ≡ r = ground arith in
      (ap some same, subst (λ (x : DhcpRequest). (x.kind ≡ 1) ⊎ (x.kind ≡ 3)) same (ground arith))
]

-- The tests before the options.
accepted :
    (p : List ℕ) (r : DhcpRequest) (o : Option DhcpRequest)
    → (if ltb (length p) 240 || ltb dhcp_max (length p)
        then none
        else if not (header_fits p)
        then none
        else of_kind o)
      ≡ some r
    → (240 ≤ length p)
      × (length p ≤ dhcp_max)
      × (header_fits p ≡ true)
      × (o ≡ some r)
      × ((r.kind ≡ 1) ⊎ (r.kind ≡ 3))
accepted p r o h = elim (Bool-cases (ltb (length p) 240 || ltb dhcp_max (length p))) [
  | inl wrong ↦ absurd (cc_none (rw wrong at h))
  | inr sized ↦ elim (Bool-cases (header_fits p)) [
    | inr bad ↦ absurd (cc_none (rw (sized, bad) at h))
    | inl good ↦
        let k = kind_of_kind o r (rw (sized, good) at h) in
        (ground arith, ground arith, good, k.0, k.1)
  ]
]
  where
    cc_none : none ≡ some r → ⊥
    cc_none e = cc

of_kind-known : (r : DhcpRequest) → (r.kind ≡ 1) ⊎ (r.kind ≡ 3) → of_kind (some r) ≡ some r
of_kind-known r (inl e) = rw e refl
of_kind-known r (inr e) = rw e refl

sized :
    (p : List ℕ)
    → 240 ≤ length p
    → length p ≤ dhcp_max
    → (ltb (length p) 240 || ltb dhcp_max (length p)) ≡ false
sized p long short = ground arith

-- The bytes that are accepted are exactly those of a DHCP message: of a length from 240 to what the
-- buffer holds, with the header of a client's request on an Ethernet, the magic cookie included,
-- and with options that lead to the request that is returned, a discovery or a request whose
-- fields have their sizes.
pub parse-IsMessage_iff : (p : List ℕ) (r : DhcpRequest) → (parse (some p) ≡ some r) ↔ IsMessage p r
unfolding parse
parse-IsMessage_iff p r = (forth, back)
  where
    reads :
        (scan_options (length (drop 240 p)) (drop 240 p) (start_of p) ≡ some r)
        ↔ Reads r (start_of p) (drop 240 p)
    reads = scan_options-Reads_iff r (start_of p) (drop 240 p)

    forth : parse (some p) ≡ some r → IsMessage p r
    forth h =
        unfold parse in
        let a = accepted p r (scan_options (length (drop 240 p)) (drop 240 p) (start_of p)) h in
        record {
          long = a.0;
          short = a.1;
          header = (header_fits_iff p a.0).0 a.2;
          options = reads.0 a.3;
          known = a.4;
          sized = Reads-IsSized r (start_of p) (drop 240 p) (reads.0 a.3) (start_of-IsSized p a.0);
        }

    back : IsMessage p r → parse (some p) ≡ some r
    back v =
        unfold parse in
        rw (sized p v.long v.short, (header_fits_iff p v.long).1 v.header, reads.1 v.options)
          (of_kind-known r v.known)
