-- ===== src/NetEndpoint/Queries.antt =====
-- The diagnostics of firmware/net_endpoint.c: what its queries answer, and the scan. What the driver
-- and lwIP hold is a record.
use picobridge.Prelude.{
  ℕ, ◌+◌, ◌-◌, ◌*◌, ◌^◌, Bool, true, false, not, ◌&&◌, ◌||◌, Option, none, some, List, length, ltb,
  leb, ◌==◌, if◌then◌else◌, bit_and, bit_or, u8, u16, ◌>>>◌,
}
use picobridge.RadioConfig.Flash.{read, same_string}
use picobridge.Bridge.{Diagnostics}
use picobridge.NetEndpoint.Station.{NetState, no_record, Station, state_byte}

-- The interface's state: the link's status as a byte, the join state, the state of the DHCP client if
-- there is one, whether the interface is up, its address as lwIP keeps it, whether the driver's
-- station is active and whether the driver is initialised.
pub record Interface : Type 0 where
  pub link : ℕ
  pub join_state : ℕ
  pub dhcp : Option ℕ
  pub is_up : Bool
  pub address : ℕ
  pub sta_active : Bool
  pub initialized : Bool

unfoldable pub link_byte : NetState → Interface → ℕ
link_byte no_record n = 0
link_byte _ n = n.link

unfoldable pub dhcp_byte : Interface → ℕ
dhcp_byte n = elim n.dhcp [
  | none ↦ 0
  | some state ↦ if not n.is_up then 1 else if state == 10 then 3 else u8 state
]

unfoldable pub ip_octet : Interface → ℕ → ℕ
ip_octet n index = if ltb 3 index then 0 else u8 (n.address >>> (24 - 8 * index))

abbrev pub flag : Bool → ℕ → ℕ
flag on bit = if on then bit else 0

abbrev pub is_some : Option ℕ → Bool
is_some none = false
is_some (some x) = true

unfoldable pub probe : Interface → ℕ
probe n = bit_or 1 (
    bit_or (flag n.is_up 2) (
      bit_or (flag (is_some n.dhcp) 4) (
        bit_or (flag (not (bit_and n.join_state 1 == 0)) 8) (
          bit_or (flag n.sta_active 16)
            (bit_or (flag (not (n.address == 0)) 32) (flag n.initialized 128))))))

-- The counters of a scan and the ssid that is looked for. An int16_t is its two's complement.
pub record Scan : Type 0 where
  pub total : ℕ
  pub matches : ℕ
  pub best_rssi : ℕ
  pub ssid : List ℕ

-- A network that a scan reports.
pub record ScanResult : Type 0 where
  pub ssid : List ℕ
  pub rssi : ℕ

-- `a < b` of two int16_t.
abbrev pub less_signed : ℕ → ℕ → Bool
less_signed a b = ltb (u16 (a + 2 ^ 15)) (u16 (b + 2 ^ 15))

-- A counter that stops at 0xFFFF.
abbrev pub count_one : ℕ → ℕ
count_one n = if ltb n 0xffff then n + 1 else n

unfoldable pub scan_result : Scan → ScanResult → Scan
scan_result s r =
    let counted = record s { total = count_one s.total } in
    if leb (length r.ssid) 32 && same_string r.ssid s.ssid
    then record counted {
      matches = count_one s.matches;
      best_rssi =
          if s.best_rssi == 0 || less_signed s.best_rssi r.rssi then r.rssi else s.best_rssi;
    }
    else counted

-- Whether a scan has been started. `active` says that one is running, and `started` is what the
-- driver answers.
unfoldable pub scan_start : Scan → List ℕ → Bool → Bool → Bool × Scan
scan_start s radio active started = if active then (false, s) else elim (read radio) [
  | none ↦ (false, s)
  | some cfg ↦ (started, record { total = 0; matches = 0; best_rssi = 0; ssid = cfg.ssid })
]

-- A counter as a byte.
unfoldable pub scan_byte : ℕ → ℕ
scan_byte n = if ltb 254 n then 255 else u8 n

-- What the command channel's queries of the network answer.
abbrev pub diagnostics_of : Station → Interface → Scan → Bool → Diagnostics
diagnostics_of s n scan started = record {
  state = state_byte s.state;
  link = link_byte s.state n;
  raw = u16 n.join_state;
  dhcp = dhcp_byte n;
  ip_octet = λ index. ip_octet n index;
  scan_start = started;
  scan_total = scan_byte scan.total;
  scan_match = scan_byte scan.matches;
  scan_rssi = u8 scan.best_rssi;
  probe = probe n;
}
