-- ===== src/Xvm/Request/Laws.antt =====
-- What a server reads in the requests of QueryRange and Query (client/xvm/client.go).
use native.Mathlib.Nat.{div-lt_iff_lt-mul}
use opendevops_codo_golang_s.Go.Query.Escape.{IsByte}
use opendevops_codo_golang_s.Go.Query.{parse_query, encode, get}
use opendevops_codo_golang_s.Go.Query.Assigned.{AreTexts, set_all, assigned, get-parse_query-encode}
use opendevops_codo_golang_s.Xvm.{MetricResult}
use opendevops_codo_golang_s.Common.{
  Bytes, ℕ, ◌⊎◌, ◌<◌, ◌≡◌, ◌*◌, List, some, utf8, ◌++◌, ◌≢◌, none, arith, All-append, ◌/◌, ◌∙◌,
  refl, inr, inl, if◌then◌else◌, same,
}
use opendevops_codo_golang_s.Go.Query.Canonical.{IsText}
use opendevops_codo_golang_s.Xvm.Query.{
  step, QueryRangeOptions, Response, RangeOption, quotient, quotient-pos, step-total, apply_range,
}
use opendevops_codo_golang_s.Xvm.Request.{
  query_range, range_params, Clock, Urls, HttpRequest, ClientOptions, answered, with_params,
  RequestError, default_query_range_options, joined, make_request,
}
use opendevops_codo_golang_s.Go.Number.{itoa, ℤ, pos, format_uint}
use opendevops_codo_golang_s.Go.Query.Digits.{itoa-IsText, format_uint-IsText}

range_params-AreTexts :
    {T : Type 0} (clock : Clock T) (query : Bytes) (o : QueryRangeOptions T) (d : ℤ)
    → IsText query
    → AreTexts (range_params clock query o d)
unfolding range_params
range_params-AreTexts clock query o d h =
    let step_text : IsText (itoa (clock.seconds d) ++ utf8 "s") =
      All-append IsByte (itoa (clock.seconds d)) (utf8 "s") (itoa-IsText (clock.seconds d))
        (omega arith) in
    (
      (omega arith, h),
      (
        (omega arith, itoa-IsText (clock.unix o.start)),
        (
          (omega arith, itoa-IsText (clock.unix o.end)),
          ((omega arith, step_text), ((omega arith, format_uint-IsText o.limit), tt)),
        ),
      ),
    )

get-range_params :
    {T : Type 0} (clock : Clock T) (query raw : Bytes) (o : QueryRangeOptions T) (d : ℤ) (k : Bytes)
    → IsText query
    → IsText raw
    → get k (parse_query (encode (set_all (range_params clock query o d) (parse_query raw))))
      ≡ assigned k (range_params clock query o d) (get k (parse_query raw))
get-range_params clock query raw o d k hq hr =
    get-parse_query-encode k raw (range_params clock query o d) hr
      (range_params-AreTexts clock query o d hq)

-- What a server is to read under a key: the limit, the step and the times in seconds, and the query; and under
-- any other key what the URL had before.
abbrev pub asked : Bytes → (query start end step limit before : Bytes) → Bytes
asked k query start end step limit before =
    if same (utf8 "limit") k
    then limit
    else if same (utf8 "step") k
    then step
    else if same (utf8 "end") k
    then end
    else if same (utf8 "start") k
    then start
    else if same (utf8 "query") k
    then query
    else before

-- Where the query and that of the joined URL are of bytes, the limit is not 0 and the URL is joined and parsed,
-- QueryRange makes its request for that URL with a new query, of which a server that parses it reads: under
-- "query", "start", "end", "step" and "limit" the query, the two times in seconds, the range divided by the
-- limit, in seconds, and the limit of the options, and under any other key what the URL had before.
pub query_range_asks :
    {F T U : Type 0} (urls : Urls U) (clock : Clock T) (decode : Bytes → MetricResult F ⊎ Bytes)
    (send : HttpRequest → Response ⊎ Bytes) (client : ClientOptions) (base query full : Bytes)
    (before now : T) (opts : List (RangeOption T)) (u : U) (d : ℤ) (k : Bytes)
    → IsText query
    → IsText (urls.raw_query u)
    → urls.join_path base (utf8 "/api/v1/query_range") ≡ inl full
    → urls.parse full ≡ inl u
    → step clock.sub (apply_range opts (default_query_range_options before now)) ≡ some d
    → let o = apply_range opts (default_query_range_options before now) in
      (raw : Bytes) × (query_range urls clock decode send client base query before now opts
        ≡ answered decode send (some (make_request urls client (urls.text_with u raw))))
      × (get k (parse_query raw)
          ≡ asked k query
              (itoa (clock.unix o.start))
              (itoa (clock.unix o.end))
              (itoa (clock.seconds d) ++ utf8 "s")
              (format_uint o.limit)
              (get k (parse_query (urls.raw_query u))))
unfolding query_range range_params
query_range_asks urls clock decode send client base query full before now opts u d k hq hr joins
      parses steps =
    let o = apply_range opts (default_query_range_options before now) in
    (
      encode (set_all (range_params clock query o d) (parse_query (urls.raw_query u))),
      rw (steps, joins, parses) refl,
      get-range_params clock query (urls.raw_query u) o d k hq hr,
    )

answered-some :
    {F : Type 0} (decode : Bytes → MetricResult F ⊎ Bytes) (send : HttpRequest → Response ⊎ Bytes)
    (r : HttpRequest ⊎ RequestError)
    → answered decode send (some r) ≢ none
answered-some decode send (inl req) h = cc
answered-some decode send (inr e) h = cc

-- With the parameters at hand the rest of a query does not panic.
joined-answered :
    {F U : Type 0} (urls : Urls U) (decode : Bytes → MetricResult F ⊎ Bytes)
    (send : HttpRequest → Response ⊎ Bytes) (client : ClientOptions) (params : List (Bytes × Bytes))
    (full : Bytes ⊎ Bytes)
    → answered decode send (joined urls client (some params) full) ≢ none
joined-answered urls decode send client params (inr e) h = cc
joined-answered {F} {U} urls decode send client params (inl full) h = go (urls.parse full) h
  where
    go :
        (parsed : U ⊎ Bytes)
        → answered decode send (with_params urls client (some params) parsed) ≢ none
    go (inr e) h = cc
    go (inl u) h =
        answered-some decode send
          (make_request urls client
            (urls.text_with u (encode (set_all params (parse_query (urls.raw_query u))))))
          h

-- QueryRange never panics, whatever the options, the URL and the response.
query_range-total :
    {F T U : Type 0} (urls : Urls U) (clock : Clock T) (decode : Bytes → MetricResult F ⊎ Bytes)
    (send : HttpRequest → Response ⊎ Bytes) (client : ClientOptions) (base query : Bytes)
    (before now : T) (opts : List (RangeOption T))
    → query_range urls clock decode send client base query before now opts ≢ none
unfolding query_range default_query_range_options
query_range-total urls clock decode send client base query before now opts h =
    let (d, e) = step-total clock.sub now before opts in
    let o = apply_range opts (default_query_range_options before now) in
    joined-answered urls decode send client (range_params clock query o d)
      (urls.join_path base (utf8 "/api/v1/query_range")) (rw e at h)

-- Where the range is shorter than as many seconds as the limit has points, the server is asked for a step of no
-- seconds at all. Of the conversion of a Duration: less than a second gives no whole second.
range_params_short :
    {T : Type 0} (clock : Clock T) (query raw : Bytes) (o : QueryRangeOptions T) (n : ℕ)
    → IsText query
    → IsText raw
    → ((k : ℕ) → k < 1_000_000_000 → clock.seconds (pos k) ≡ pos 0)
    → clock.sub o.end o.start ≡ pos n
    → n < 1_000_000_000 * o.limit
    → (d : ℤ) × (step clock.sub o ≡ some d)
      × (get
            (utf8 "step")
            (parse_query (encode (set_all (range_params clock query o d) (parse_query raw))))
          ≡ utf8 "0s")
unfolding step quotient itoa format_uint range_params
range_params_short clock query raw o n hq hr whole range short =
    let at_step = get-range_params clock query raw o (pos (n / o.limit)) (utf8 "step") hq hr in
    let positive : 0 < o.limit = omega arith in
    let none_whole : clock.seconds (pos (n / o.limit)) ≡ pos 0 =
      whole (n / o.limit) ((div-lt_iff_lt-mul positive).1 short) in
    (pos (n / o.limit), rw range (quotient-pos n o.limit positive), at_step ∙ rw none_whole refl)
