-- ===== src/HttpParser.antt =====
-- The request parser of firmware/radio/http_parser.h and firmware/radio/http_parser.c. A pointer with
-- a length is a list; a loop over an index runs on fuel for the length.
pub mod Loops
mod Tests
use picobridge.Prelude.{
  ℕ, zero, suc, ◌+◌, ◌-◌, Bool, true, false, not, ◌&&◌, ◌||◌, Option, none, some, List, [], ◌∷◌,
  length, get_or, take, drop, map, ltb, leb, ◌==◌, if◌then◌else◌,
}
use picobridge.Prelude.Text.{codes}
use picobridge.RadioConfig.Flash.{same_string}

abbrev pub radio_http_max : ℕ
radio_http_max = 1024

-- `enum radio_http_result`
pub data HttpResult : Type 0 where
  more root health bad not_found wrong_method large : HttpResult

-- `while (test(i)) i++`, with fuel.
unfoldable pub advance : (ℕ → Bool) → ℕ → ℕ → ℕ
advance test zero i = i
advance test (suc fuel) i = let rest = advance test fuel (i + 1) in if test i then rest else i

-- `while (value < vend && p[vend-1] == ' ') vend--`
unfoldable pub retreat : (ℕ → Bool) → ℕ → ℕ → ℕ
retreat test value zero = zero
retreat test value (suc vend) =
    let rest = retreat test value vend in
    if ltb value (suc vend) && test vend then rest else suc vend

unfoldable pub lower : ℕ → ℕ
lower c = if leb 65 c && leb c 90 then c + 32 else c

-- `strchr` in the punctuation of a token.
unfoldable pub is_one_of : ℕ → List ℕ → Bool
is_one_of c [] = false
is_one_of c (x ∷ xs) = c == x || is_one_of c xs

unfoldable pub token : ℕ → Bool
token c =
    (leb 97 c && leb c 122)
    || (leb 65 c && leb c 90)
    || (leb 48 c && leb c 57)
    || (not (c == 0) && is_one_of c (codes "!#$%&'*+-.^_`|~"))

module _ (p : List ℕ) where
  abbrev pub at : ℕ → ℕ
  at i = get_or p i 0

  -- The bytes from `from` up to `to`.
  abbrev pub slice : ℕ → ℕ → List ℕ
  slice from to = take (to - from) (drop from p)

  -- `eq` and `ieq` of a part with a literal.
  unfoldable pub eq : ℕ → ℕ → List ℕ → Bool
  eq from to s = same_string (slice from to) s

  unfoldable pub ieq : ℕ → ℕ → List ℕ → Bool
  ieq from to s = same_string (map lower (slice from to)) s

  -- A byte that no request has in this place.
  unfoldable pub is_stray : ℕ → Bool
  is_stray i =
      if at i == 13
      then ltb (i + 1) (length p) && not (at (i + 1) == 10)
      else if at i == 10
      then i == 0 || not (at (i - 1) == 13)
      else ltb (at i) 32 || ltb 126 (at i)

  unfoldable pub ends_at : ℕ → Bool
  ends_at i = leb 3 i && at (i - 3) == 13 && at (i - 2) == 10 && at (i - 1) == 13 && at i == 10

  -- The loop over all bytes, with the end of the header when it has been met, and 0 before.
  unfoldable pub scan : ℕ → ℕ → ℕ → Option ℕ
  scan zero i end = some end
  scan (suc fuel) i end =
      let rest = scan fuel (i + 1) (if ends_at i && end == 0 then i + 1 else end) in
      if is_stray i then none else rest

  abbrev pub n : ℕ
  n = length p

  unfoldable pub line_end : ℕ
  line_end = advance (λ i. ltb (i + 1) n && not (at i == 13 && at (i + 1) == 10)) n 0

  -- The flags `host` and `cl` after a header field, from `pos` to `colon`, with the trimmed value
  -- from `value` to `vend`.
  unfoldable pub field : Bool × Bool → ℕ → ℕ → ℕ → ℕ → Option (Bool × Bool)
  field (host, cl) pos colon value vend =
      if ieq pos colon (codes "host")
      then (if host
            || not (eq value vend (codes "192.168.4.1") || eq value vend (codes "192.168.4.1:443"))
          then none
          else some (true, cl))
      else if ieq pos colon (codes "content-length")
      then (if cl || not (eq value vend (codes "0")) then none else some (host, true))
      else if ieq pos colon (codes "transfer-encoding")
          || ieq pos colon (codes "expect")
          || ieq pos colon (codes "upgrade")
      then none
      else some (host, cl)

  -- One line of the header, from `pos` to `stop`.
  unfoldable pub header_line : Bool × Bool → ℕ → ℕ → Option (Bool × Bool)
  header_line flags pos stop =
      let colon = advance (λ i. ltb i stop && token (at i)) n pos in
      let value = advance (λ i. ltb i stop && at i == 32) n (colon + 1) in
      if stop == pos || colon == pos || leb stop colon || not (at colon == 58)
      then none
      else field flags pos colon value (retreat (λ i. at i == 32) value stop)

  abbrev pub go_on :
      Option (Bool × Bool) → (Bool × Bool → Option (Bool × Bool)) → Option (Bool × Bool)
  go_on none k = none
  go_on (some flags) k = k flags

  -- The loop over the lines; every round moves on.
  unfoldable pub headers : ℕ → ℕ → Bool × Bool → Option (Bool × Bool)
  headers zero pos flags = some flags
  headers (suc fuel) pos flags =
      let stop = advance (λ i. ltb (i + 1) n && not (at i == 13)) n pos in
      if ltb pos (n - 2)
      then go_on (header_line flags pos stop) (headers fuel (stop + 2))
      else some flags

  -- The request line: the ends of its method and of its path.
  unfoldable pub request_line : ℕ → Option (ℕ × ℕ)
  request_line line =
      let m = advance (λ i. ltb i line && token (at i)) n 0 in
      let pathend = advance (λ i. ltb i line && not (at i == 32)) n (m + 1) in
      if m == 0 || leb line m || not (at m == 32)
      then none
      else if pathend == m + 1
          || not (at (m + 1) == 47)
          || leb line pathend
          || not (eq (pathend + 1) line (codes "HTTP/1.1"))
      then none
      else some (m, pathend)

  -- The result for a request whose header is in order.
  unfoldable pub route : ℕ × ℕ → HttpResult
  route (m, pathend) =
      if not (eq 0 m (codes "GET"))
      then wrong_method
      else if eq (m + 1) pathend (codes "/")
      then root
      else if eq (m + 1) pathend (codes "/health")
      then health
      else not_found

  abbrev pub with_host : Option (Bool × Bool) → HttpResult → HttpResult
  with_host none result = bad
  with_host (some (host, cl)) result = if host then result else bad

  unfoldable pub whole_request : HttpResult
  whole_request = elim (request_line line_end) [
    | none ↦ bad
    | some ends ↦ with_host (headers n (line_end + 2) (false, false)) (route ends)
  ]

  -- What the scan has found: a stray byte, no end, or the end of the header.
  abbrev pub scanned : Option ℕ → HttpResult
  scanned none = bad
  scanned (some end) =
      if end == 0
      then (if n == radio_http_max then large else more)
      else if not (end == n)
      then bad
      else whole_request

  unfoldable pub parse_bytes : HttpResult
  parse_bytes = if ltb radio_http_max n then large else scanned (scan n 0 0)

-- What is parsed: a NULL pointer with a length, or bytes.
pub data HttpInput : Type 0 where
  null : ℕ → HttpInput
  bytes : List ℕ → HttpInput

unfoldable pub http_parse : HttpInput → HttpResult
unfolding parse_bytes
http_parse (null n) = if ltb radio_http_max n then large else if n == 0 then more else bad
http_parse (bytes p) = parse_bytes p
