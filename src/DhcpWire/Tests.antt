-- ===== src/DhcpWire/Tests.antt =====
-- Runs of the DHCP reader, and its theorems at a concrete message.
use picobridge.Prelude.{ℕ, ◌≡◌, ◌↔◌, refl, some, none, List, [], ◌∷◌, ◌++◌, replicate}
use picobridge.DhcpWire.{
  DhcpRequest, apply_option, read_payload, read_option, scan_options, same_bytes, join_bits,
  header_fits, start_of, parse,
}
use picobridge.DhcpWire.Options.{Reads, scan_options-Reads_iff}
use picobridge.DhcpWire.Reader.{IsMessage, parse-IsMessage_iff}

-- A discovery: a pad, the message's type and the end mark.
abbrev discovery_options : List ℕ
discovery_options = 0 ∷ 53 ∷ 1 ∷ 1 ∷ 255 ∷ []

abbrev discovery : List ℕ
discovery =
    (1 ∷ 1 ∷ 6 ∷ 0 ∷ [])
    ++ replicate 24 0
    ++ (2 ∷ 0 ∷ 0 ∷ 0 ∷ 0 ∷ 1 ∷ [])
    ++ replicate 202 0
    ++ (0x63 ∷ 0x82 ∷ 0x53 ∷ 0x63 ∷ [])
    ++ discovery_options

abbrev discovered : DhcpRequest
discovered = record (start_of discovery) { kind = 1 }

discovery_read : parse (some discovery) ≡ some discovered
unfolding parse header_fits same_bytes join_bits scan_options read_option read_payload apply_option
    replicate
discovery_read = refl

parse-IsMessage_iff_example :
    (parse (some discovery) ≡ some discovered) ↔ IsMessage discovery discovered
parse-IsMessage_iff_example = parse-IsMessage_iff discovery discovered

discovery-IsMessage : IsMessage discovery discovered
discovery-IsMessage = (parse-IsMessage_iff discovery discovered).0 discovery_read

scan_options-Reads_iff_example :
    (scan_options 5 discovery_options (start_of discovery) ≡ some discovered)
    ↔ Reads discovered (start_of discovery) discovery_options
scan_options-Reads_iff_example =
    scan_options-Reads_iff discovered (start_of discovery) discovery_options

-- Options that do not end with the mark are refused.
endless_refused : scan_options 3 (53 ∷ 1 ∷ 1 ∷ []) (start_of discovery) ≡ none
unfolding scan_options read_option read_payload apply_option
endless_refused = refl
