-- ===== src/Examples/Xsign.antt =====
-- Tests of the model of the request signature.
use opendevops_codo_golang_s.Xsign.Laws.{server_http-client_http, IsGenuine, server_http-eq-passed}
use opendevops_codo_golang_s.Go.Query.{
  parse_query, query_unescape, set, del, encode, append_value, bytes_lt,
}
use opendevops_codo_golang_s.Go.Number.{ℤ, pos, itoa}
use opendevops_codo_golang_s.Xsign.{
  Request, Md5, XSignOptions, client_http, expired, new_xsign_middleware, server_http,
  with_sign_key, passed, silent, with_enabled,
}
use opendevops_codo_golang_s.Common.{
  ◌∷◌, none, utf8, ◌≡◌, [], false, some, true, refl, ◌↔◌, arith, inl,
}

abbrev posted : Request
posted = record {
  method = utf8 "POST";
  raw_query = utf8 "x-sign=old&a=1%2b1;&a=1%2B1";
  content_length = pos 4;
  body = some (utf8 "body");
}

abbrev options : XSignOptions
options = record { sign_key = utf8 "key"; enabled = true }

-- A sum of one digit.
abbrev seven : Md5
seven = record { write_error = λ s. none; md5_hex = λ s. b'7' ∷ [] }

abbrev arrived : Request
arrived = record posted { raw_query = utf8 "a=1%2B1&x-sign=7&x-ts=100" }

abbrev half_a_minute : ℤ → ℤ
half_a_minute ts = pos 30_000_000_000

is_sent : client_http seven options (pos 100) posted ≡ inl arrived
unfolding client_http parse_query query_unescape append_value bytes_lt set del encode itoa
is_sent = refl

half_a_minute_fresh : expired (half_a_minute (pos 100)) ≡ false
unfolding expired
half_a_minute_fresh = refl

server_http-client_http_example : server_http seven options half_a_minute arrived ≡ passed arrived
server_http-client_http_example =
    server_http-client_http seven options half_a_minute 100 posted arrived (λ s. omega arith)
      (omega arith) is_sent refl refl (omega arith) half_a_minute_fresh

server_http-eq-passed_example :
    (server_http seven options half_a_minute arrived ≡ passed arrived)
    ↔ ((arrived ≡ arrived) × IsGenuine seven options half_a_minute arrived)
server_http-eq-passed_example = server_http-eq-passed seven options half_a_minute arrived arrived

abbrev switched_off : XSignOptions
switched_off = record { sign_key = utf8 "key"; enabled = false }

nothing_passes : server_http seven switched_off half_a_minute arrived ≡ silent
unfolding server_http
nothing_passes = refl

switching :
    new_xsign_middleware (with_sign_key (utf8 "key") ∷ with_enabled false ∷ []) ≡ switched_off
unfolding new_xsign_middleware with_sign_key with_enabled
switching = refl
