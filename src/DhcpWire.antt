-- ===== src/DhcpWire.antt =====
-- The DHCP reader of the network endpoint: firmware/radio/dhcp_wire.h and firmware/radio/dhcp_wire.c.
-- A pointer with a length is the list of the bytes from it on.
pub mod Options
pub mod Header
pub mod Reader
mod Tests
use picobridge.Prelude.{
  ℕ, zero, suc, Bool, true, false, not, ◌&&◌, ◌||◌, Option, none, some, List, [], ◌∷◌, length,
  get_or, take, drop, ltb, ◌==◌, if◌then◌else◌, bit_and, bit_or, replicate,
}

abbrev pub dhcp_max : ℕ
dhcp_max = 576

-- `struct radio_dhcp_request`
pub record DhcpRequest : Type 0 where
  pub kind : ℕ  -- the field `type`
  pub mac : List ℕ
  pub xid : List ℕ
  pub requested : List ℕ
  pub server : List ℕ
  pub ciaddr : List ℕ
  pub has_requested : Bool
  pub has_server : Bool

-- One option, with its payload of `len` bytes.
unfoldable pub apply_option : DhcpRequest → ℕ → List ℕ → Option DhcpRequest
apply_option r opt payload =
    if opt == 53
    then (if not (length payload == 1) || not (r.kind == 0)
        then none
        else some (record r { kind = get_or payload 0 0 }))
    else if opt == 50
    then (if not (length payload == 4) || r.has_requested
        then none
        else some (record r { requested = payload; has_requested = true }))
    else if opt == 54
    then (if not (length payload == 4) || r.has_server
        then none
        else some (record r { server = payload; has_server = true }))
    else if opt == 52
    then none
    else some r

-- One round of the loop: go on behind the bytes read, or leave the loop.
pub data Step : Type 0 where
  go_on : DhcpRequest → List ℕ → Step
  leave : Option DhcpRequest → Step

abbrev pub step_of : Option DhcpRequest → List ℕ → Step
step_of none rest = leave none
step_of (some r) rest = go_on r rest

-- The bytes behind an option's code.
unfoldable pub read_payload : DhcpRequest → ℕ → List ℕ → Step
read_payload r opt [] = leave none
read_payload r opt (len ∷ rest) =
    if ltb (length rest) len
    then leave none
    else step_of (apply_option r opt (take len rest)) (drop len rest)

unfoldable pub read_option : DhcpRequest → ℕ → List ℕ → Step
read_option r opt bytes =
    if opt == 0
    then go_on r bytes
    else if opt == 255
    then leave (some r)
    else read_payload r opt bytes

-- `while(i<n)`; options that end without the mark 255 are refused. Each round reads a byte at
-- least, so that fuel for the bytes is enough.
unfoldable pub scan_options : ℕ → List ℕ → DhcpRequest → Option DhcpRequest
scan_options zero bytes r = none
scan_options (suc fuel) [] r = none
scan_options (suc fuel) (opt ∷ bytes) r = elim (read_option r opt bytes) [
  | leave o ↦ o
  | go_on r' rest ↦ scan_options fuel rest r'
]

-- `memcmp(...) == 0`
unfoldable pub same_bytes : List ℕ → List ℕ → Bool
same_bytes (a ∷ left) (b ∷ right) = a == b && same_bytes left right
same_bytes _ _ = true

-- The bytes of a list joined by `|`.
unfoldable pub join_bits : List ℕ → ℕ
join_bits [] = 0
join_bits (b ∷ bytes) = bit_or b (join_bits bytes)

unfoldable pub header_fits : List ℕ → Bool
header_fits p =
    get_or p 0 0 == 1
    && get_or p 1 0 == 1
    && get_or p 2 0 == 6
    && get_or p 3 0 == 0
    && same_bytes (take 4 (drop 24 p)) (replicate 4 0)
    && same_bytes (take 4 (drop 236 p)) (0x63 ∷ 0x82 ∷ 0x53 ∷ 0x63 ∷ [])
    && bit_and (get_or p 28 0) 1 == 0
    && not (join_bits (take 6 (drop 28 p)) == 0)

abbrev pub start_of : List ℕ → DhcpRequest
start_of p = record {
  kind = 0;
  mac = take 6 (drop 28 p);
  xid = take 4 (drop 4 p);
  requested = replicate 4 0;
  server = replicate 4 0;
  ciaddr = take 4 (drop 12 p);
  has_requested = false;
  has_server = false;
}

-- Only a discovery or a request is accepted.
abbrev pub of_kind : Option DhcpRequest → Option DhcpRequest
of_kind none = none
of_kind (some r) = if r.kind == 1 || r.kind == 3 then some r else none

unfoldable pub parse : Option (List ℕ) → Option DhcpRequest
parse none = none
parse (some p) =
    if ltb (length p) 240 || ltb dhcp_max (length p)
    then none
    else if not (header_fits p)
    then none
    else of_kind (scan_options (length (drop 240 p)) (drop 240 p) (start_of p))
