-- ===== src/Xvm/Request.antt =====
-- client/xvm/client.go: the requests of QueryRange and Query. url.JoinPath, url.Parse and the client that
-- sends are parameters; so is the float64 between a Duration and its seconds.
pub mod Laws
pub mod Auth
use opendevops_codo_golang_s.Go.Base64.{base64}
use opendevops_codo_golang_s.Go.Query.Assigned.{set_all}
use opendevops_codo_golang_s.Go.Query.{encode, parse_query}
use opendevops_codo_golang_s.Xvm.{MetricResult}
use opendevops_codo_golang_s.Xvm.Query.{
  QueryRangeOptions, Response, QueryResult, RangeOption, QueryError, apply_range, read_response,
  step,
}
use opendevops_codo_golang_s.Go.Number.{ℤ, itoa, format_uint}
use opendevops_codo_golang_s.Common.{
  ◌∷◌, Bool, Bytes, List, false, true, ℕ, utf8, ◌⊎◌, Option, if◌then◌else◌, inr, none, [], inl,
  ◌++◌, some, foldl,
}

-- url.JoinPath, url.Parse, the RawQuery of a URL, its text with another RawQuery, and the error of
-- http.NewRequestWithContext.
pub record Urls (U : Type 0) : Type 0 where
  pub join_path : Bytes → Bytes → Bytes ⊎ Bytes
  pub parse : Bytes → U ⊎ Bytes
  pub raw_query : U → Bytes
  pub text_with : U → Bytes → Bytes
  pub request_error : Bytes → Option Bytes

-- Time.Sub in nanoseconds, Time.Unix, and int(d.Seconds()).
pub record Clock (T : Type 0) : Type 0 where
  pub sub : T → T → ℤ
  pub unix : T → ℤ
  pub seconds : ℤ → ℤ

-- queryOptions
pub record QueryOptions (T : Type 0) : Type 0 where
  pub timestamp : T
  pub query_timestamp : Bool
  pub limit : ℕ

-- defaultQueryOptions; `epoch` is time.Unix(0, 0).
unfoldable pub default_query_options : {T : Type 0} → T → QueryOptions T
default_query_options epoch = record { timestamp = epoch; query_timestamp = false; limit = 1000 }

-- WithQueryOptionTimestamp
unfoldable pub with_timestamp : {T : Type 0} → T → QueryOptions T → QueryOptions T
with_timestamp t o = record o { timestamp = t; query_timestamp = true }

-- WithQueryOptionLimit
unfoldable with_query_limit : {T : Type 0} → ℕ → QueryOptions T → QueryOptions T
with_query_limit n o = record o { limit = n }

-- defaultQueryRangeOptions, with the two moments that it computes.
unfoldable pub default_query_range_options : {T : Type 0} → T → T → QueryRangeOptions T
default_query_range_options before now = record { start = before; end = now; limit = 1000 }

module _ {T : Type 0} (clock : Clock T) where
  -- What QueryRange sets, where the step is d.
  unfoldable pub range_params : Bytes → QueryRangeOptions T → ℤ → List (Bytes × Bytes)
  range_params query o d =
      (utf8 "query", query)
      ∷ (utf8 "start", itoa (clock.unix o.start))
      ∷ (utf8 "end", itoa (clock.unix o.end))
      ∷ (utf8 "step", itoa (clock.seconds d) ++ utf8 "s")
      ∷ (utf8 "limit", format_uint o.limit)
      ∷ []

  -- What Query sets.
  unfoldable pub query_params : Bytes → QueryOptions T → List (Bytes × Bytes)
  query_params query o =
      (utf8 "query", query)
      ∷ ((if o.query_timestamp then (utf8 "time", itoa (clock.unix o.timestamp)) ∷ [] else [])
          ++ (utf8 "limit", format_uint o.limit) ∷ [])

-- What the client of http.Request is given.
pub record HttpRequest : Type 0 where
  pub url : Bytes
  pub authorization : Option Bytes

-- clientOptions without the client: enableAuth and authConfig.
pub record ClientOptions : Type 0 where
  pub enable_auth : Bool
  pub username : Bytes
  pub password : Bytes

unfoldable default_client_options : ClientOptions
default_client_options = record { enable_auth = false; username = []; password = [] }

-- WithClientOptionBasicAuth
unfoldable pub with_basic_auth : (username password : Bytes) → ClientOptions → ClientOptions
with_basic_auth [] [] o = o
with_basic_auth [] (c ∷ s) o = record o { enable_auth = true; username = []; password = c ∷ s }
with_basic_auth (c ∷ s) password o = record o {
  enable_auth = true;
  username = c ∷ s;
  password = password;
}

-- NewMetricsClient: the base URL and the options of the client.
unfoldable new_metrics_client : Bytes → List (ClientOptions → ClientOptions) → Bytes × ClientOptions
unfolding default_client_options
new_metrics_client base_url opts = (base_url, foldl (λ o f. f o) default_client_options opts)

-- addAuthHeader
unfoldable pub auth_header : ClientOptions → Option Bytes
auth_header o =
    if o.enable_auth
    then some (utf8 "Basic " ++ base64 (o.username ++ (utf8 ":" ++ o.password)))
    else none

-- Why no request was made: by url.JoinPath, url.Parse or http.NewRequestWithContext.
pub data RequestError : Type 0 where
  unjoined unparsed unmade : Bytes → RequestError

module _ {U : Type 0} (urls : Urls U) (o : ClientOptions) where
  -- http.NewRequestWithContext and addAuthHeader
  unfoldable pub make_request : Bytes → HttpRequest ⊎ RequestError
  make_request url = elim (urls.request_error url) [
    | none ↦ inl (record { url = url; authorization = auth_header o })
    | some e ↦ inr (unmade e)
  ]

  -- Behind url.Parse. The parameters are `none` where they panic.
  abbrev pub with_params :
      Option (List (Bytes × Bytes)) → U ⊎ Bytes → Option (HttpRequest ⊎ RequestError)
  with_params params (inr e) = some (inr (unparsed e))
  with_params none (inl u) = none
  with_params (some params) (inl u) =
      some
        (make_request (urls.text_with u (encode (set_all params (parse_query (urls.raw_query u))))))

  -- Behind url.JoinPath.
  abbrev pub joined :
      Option (List (Bytes × Bytes)) → Bytes ⊎ Bytes → Option (HttpRequest ⊎ RequestError)
  joined params (inr e) = some (inr (unjoined e))
  joined params (inl full) = with_params params (urls.parse full)

abbrev from_response :
    {F : Type 0} → QueryResult F ⊎ QueryError → QueryResult F ⊎ (RequestError ⊎ QueryError)
from_response (inl r) = inl r
from_response (inr e) = inr (inr e)

-- The rest of a query once its request is made.
abbrev pub answered :
    {F : Type 0}
    → (Bytes → MetricResult F ⊎ Bytes)
    → (HttpRequest → Response ⊎ Bytes)
    → Option (HttpRequest ⊎ RequestError)
    → Option (QueryResult F ⊎ (RequestError ⊎ QueryError))
answered decode send none = none
answered decode send (some (inr e)) = some (inr (inl e))
answered decode send (some (inl req)) = some (from_response (read_response decode (send req)))

module _ {F T U : Type 0} (urls : Urls U) (clock : Clock T)
    (decode : Bytes → MetricResult F ⊎ Bytes) (send : HttpRequest → Response ⊎ Bytes)
    (client : ClientOptions) (base : Bytes) where
  -- QueryRange: `none` where it panics. `before` and `now` are the moments of the default options.
  unfoldable pub query_range :
      Bytes
      → (before now : T) → List (RangeOption T)
      → Option (QueryResult F ⊎ (RequestError ⊎ QueryError))
  query_range query before now opts =
      let o = apply_range opts (default_query_range_options before now) in
      let params : Option (List (Bytes × Bytes)) = elim (step clock.sub o) [
        | none ↦ none
        | some d ↦ some (range_params clock query o d)
      ] in
      answered decode send
        (joined urls client params (urls.join_path base (utf8 "/api/v1/query_range")))

  -- Query
  unfoldable pub query_now :
      Bytes
      → T
      → List (QueryOptions T → QueryOptions T)
      → Option (QueryResult F ⊎ (RequestError ⊎ QueryError))
  query_now query epoch opts =
      let o = foldl (λ o f. f o) (default_query_options epoch) opts in
      answered decode send (
        joined urls client (some (query_params clock query o))
          (urls.join_path base (utf8 "/api/v1/query")))
