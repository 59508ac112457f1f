-- ===== src/Examples/Queries.antt =====
-- Tests of the requests of client/xvm.
use opendevops_codo_golang_s.Xvm.Request.Laws.{query_range_asks}
use opendevops_codo_golang_s.Xvm.{MetricResult}
use opendevops_codo_golang_s.Xvm.Request.Auth.{auth_header-with_basic_auth}
use opendevops_codo_golang_s.Go.Query.Assigned.{set_all}
use opendevops_codo_golang_s.Go.Base64.{base64, unbase64}
use opendevops_codo_golang_s.Go.Query.{parse_query, encode, cut, get}
use opendevops_codo_golang_s.Xvm.Query.{
  QueryRangeOptions, transport, step, Response, apply_range, quotient,
}
use opendevops_codo_golang_s.Xvm.Request.{
  ClientOptions, Clock, Urls, query_now, auth_header, with_basic_auth, with_timestamp, HttpRequest,
  default_query_range_options, query_range, answered,
}
use opendevops_codo_golang_s.Go.Number.{ℤ, pos, negsuc, itoa, format_uint}
use opendevops_codo_golang_s.Common.{
  ◌∷◌, Bytes, ℕ, false, inl, inr, utf8, ◌<◌, [], ◌++◌, ◌-◌, ◌/◌, ◌≡◌, arith, none, refl, some, ap,
  ◌⊎◌,
}
use opendevops_codo_golang_s.Xvm.Request.{make_request, query_params, default_query_options}
use opendevops_codo_golang_s.Xvm.Query.{read_response}
use opendevops_codo_golang_s.Go.Query.{bytes_lt, set}

abbrev seconds_of : ℤ → ℤ
seconds_of (pos n) = pos (n / 1_000_000_000)
seconds_of (negsuc n) = pos 0

-- Times in nanoseconds, from 0 on.
abbrev clock : Clock ℕ
clock = record {
  sub = λ a b. pos (a - b);
  unix = λ t. pos (t / 1_000_000_000);
  seconds = seconds_of;
}

-- One minute.
abbrev minute : QueryRangeOptions ℕ
minute = record { start = 0; end = 60_000_000_000; limit = 1000 }

below_a_second : (k : ℕ) → k < 1_000_000_000 → seconds_of (pos k) ≡ pos 0
below_a_second k h = ap pos (omega arith)

-- URLs that are texts with one query behind them.
abbrev plain_urls : Urls Bytes
plain_urls = record {
  join_path = λ base path. inl (base ++ path);
  parse = λ s. inl s;
  raw_query = λ u. [];
  text_with = λ u q. u ++ (utf8 "?" ++ q);
  request_error = λ s. none;
}

abbrev stranger : ClientOptions
stranger = record { enable_auth = false; username = []; password = [] }

auth_header-with_basic_auth_example :
    (code : Bytes) × (auth_header (with_basic_auth (utf8 "ann") (utf8 "a:b") stranger)
      ≡ some (utf8 "Basic " ++ code))
    × (cut b':' (unbase64 code) ≡ (utf8 "ann", utf8 "a:b"))
auth_header-with_basic_auth_example =
    auth_header-with_basic_auth (utf8 "ann") (utf8 "a:b") stranger (omega arith) (omega arith)
      (omega arith) (λ e. cc)

in_base64 : base64 (utf8 "ann:a:b") ≡ utf8 "YW5uOmE6Yg=="
unfolding base64
in_base64 = refl

sent_url :
    query_now {F = ℕ} plain_urls clock
      (λ b. inr b)
      (λ r. inr r.url)
      stranger
      (utf8 "http://vm")
      (utf8 "a b")
      0
      (with_timestamp 7_000_000_000 ∷ [])
    ≡ some (inr (inr (transport (utf8 "http://vm/api/v1/query?limit=1000&query=a+b&time=7"))))
unfolding query_now make_request read_response encode set_all query_params with_timestamp set
    parse_query bytes_lt format_uint default_query_options itoa
sent_url = refl

-- The same URLs with a query of their own.
abbrev tenant_urls : Urls Bytes
tenant_urls = record plain_urls { raw_query = λ u. utf8 "tenant=1&step=x" }

abbrev nowhere : HttpRequest → Response ⊎ Bytes
nowhere req = inr (utf8 "refused")

abbrev undecoded : Bytes → MetricResult Bytes ⊎ Bytes
undecoded s = inr (utf8 "no JSON")

the_step :
    step clock.sub (apply_range [] (default_query_range_options 0 60_000_000_000))
    ≡ some (pos 60_000_000)
unfolding step quotient apply_range default_query_range_options
the_step = refl

query_range_asks_example :
    (raw : Bytes) × (query_range tenant_urls clock undecoded nowhere
        (record { enable_auth = false; username = []; password = [] })
        (utf8 "http://v")
        (utf8 "up{a=\"b c\"}")
        0
        60_000_000_000
        []
      ≡ answered undecoded nowhere (
          some (
            make_request tenant_urls
              (record { enable_auth = false; username = []; password = [] })
              (utf8 "http://v/api/v1/query_range" ++ (utf8 "?" ++ raw)))))
    × (get (utf8 "tenant") (parse_query raw)
        ≡ get (utf8 "tenant") (parse_query (utf8 "tenant=1&step=x")))
unfolding default_query_range_options apply_range
query_range_asks_example =
    query_range_asks tenant_urls clock undecoded nowhere
      (record { enable_auth = false; username = []; password = [] }) (utf8 "http://v")
      (utf8 "up{a=\"b c\"}") (utf8 "http://v/api/v1/query_range") 0 60_000_000_000 []
      (utf8 "http://v/api/v1/query_range") (pos 60_000_000) (utf8 "tenant") (omega arith)
      (omega arith) refl refl the_step
