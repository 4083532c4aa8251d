-- ===== src/HttpParser/Tests.antt =====
-- Requests parsed.
use picobridge.Prelude.{ℕ, ◌≡◌, refl, List, [], ◌∷◌, ◌++◌}
use picobridge.Prelude.Text.{codes}
use picobridge.HttpParser.{
  health, bad, more, null, bytes, http_parse, parse_bytes, scan, is_stray, ends_at, whole_request,
  request_line, line_end, headers, header_line, field, route, advance, retreat, token, is_one_of,
  eq, ieq, lower,
}
use picobridge.RadioConfig.Flash.{same_string}
use picobridge.DhcpWire.{same_bytes}

abbrev crlf : List ℕ
crlf = 13 ∷ 10 ∷ []

abbrev request : List ℕ
request = codes "GET /health HTTP/1.1" ++ crlf ++ codes "Host:  192.168.4.1 " ++ crlf ++ crlf

health_request : http_parse (bytes request) ≡ health
unfolding http_parse parse_bytes scan is_stray ends_at whole_request request_line line_end headers
    header_line field route advance retreat token is_one_of eq ieq lower same_string same_bytes
health_request = refl

-- A body is refused, and a header that is not complete asks for more.
with_body : http_parse (bytes (request ++ 65 ∷ [])) ≡ bad
unfolding http_parse parse_bytes scan is_stray ends_at
with_body = refl

cut_short : http_parse (bytes (codes "GET / HT")) ≡ more
unfolding http_parse parse_bytes scan is_stray ends_at
cut_short = refl

-- A NULL pointer is no request yet, or a bad one when it has a length.
null_input : (http_parse (null 0) ≡ more) × (http_parse (null 5) ≡ bad)
unfolding http_parse
null_input = (refl, refl)
