-- ===== src/Xvm/Query.antt =====
-- client/xvm/client.go: the options of QueryRange and Query, the parameters of the request, and how the
-- response is read. Times are what package time counts: seconds for Unix, nanoseconds for Sub.
use opendevops_codo_golang_s.Go.Dict.{int_beq, int_beq_iff}
use opendevops_codo_golang_s.Xvm.{MetricData, MetricResult, is_error}
use opendevops_codo_golang_s.Go.Number.{ℤ, pos, negsuc}
use opendevops_codo_golang_s.Common.{
  Bool, Bytes, List, ℕ, Option, [], if◌then◌else◌, ◌≡◌, ◌≢◌, some, ◌==◌, ◌⊎◌, inl, inr, ◌↔◌, not,
  false, arith, none, refl, ◌/◌, ◌∷◌, ◌<◌,
}

pub data QueryError : Type 0 where
  transport : Bytes → QueryError
  invalid_auth : QueryError
  bad_status : ℤ → Bytes → QueryError
  undecodable : Bytes → QueryError
  failed : (error_type error : Bytes) → QueryError

-- queryRangeOptions; T is time.Time.
pub record QueryRangeOptions (T : Type 0) : Type 0 where
  pub start : T
  pub end : T
  pub limit : ℕ

unfoldable with_start : {T : Type 0} → T → QueryRangeOptions T → QueryRangeOptions T
with_start t o = record o { start = t }

unfoldable with_end : {T : Type 0} → T → QueryRangeOptions T → QueryRangeOptions T
with_end t o = record o { end = t }

-- WithQueryRangeOptionLimit
unfoldable with_limit : {T : Type 0} → ℕ → QueryRangeOptions T → QueryRangeOptions T
with_limit n o = if n == 0 then o else record o { limit = n }

-- The options that the package gives a caller.
pub data RangeOption (T : Type 0) : Type 0 where
  start_at end_at : T → RangeOption T
  at_most : ℕ → RangeOption T

unfoldable pub apply_range :
    {T : Type 0} → List (RangeOption T) → QueryRangeOptions T → QueryRangeOptions T
unfolding with_start with_end with_limit
apply_range [] o = o
apply_range (start_at t ∷ opts) o = apply_range opts (with_start t o)
apply_range (end_at t ∷ opts) o = apply_range opts (with_end t o)
apply_range (at_most n ∷ opts) o = apply_range opts (with_limit n o)

-- a / b on int64, toward zero: `none` where it panics.
unfoldable pub quotient : ℤ → ℕ → Option ℤ
quotient z ℕ.zero = none
quotient (pos n) (ℕ.suc b) = some (pos (n / ℕ.suc b))
quotient (negsuc n) (ℕ.suc b) =
    some (elim (ℕ.suc n / ℕ.suc b) [ ℕ.zero ↦ pos 0 | ℕ.suc q ↦ negsuc q ])

-- queryRangeOptions.step: `sub` is Time.Sub in nanoseconds.
unfoldable pub step : {T : Type 0} → (T → T → ℤ) → QueryRangeOptions T → Option ℤ
unfolding quotient
step sub o = quotient (sub o.end o.start) o.limit

-- http.Response: the status and the body.
pub record Response : Type 0 where
  pub status_code : ℤ
  pub body : Bytes

pub record QueryResult (F : Type 0) : Type 0 where
  pub is_partial : Bool
  pub metrics : MetricData F

-- What QueryRange and Query alike do once the request is sent; `decode` is the JSON decoder.
unfoldable pub read_response :
    {F : Type 0} → (Bytes → MetricResult F ⊎ Bytes) → Response ⊎ Bytes → QueryResult F ⊎ QueryError
read_response decode (inr e) = inr (transport e)
read_response decode (inl resp) =
    if int_beq resp.status_code (pos 401)
    then inr invalid_auth
    else if not (int_beq resp.status_code (pos 200))
    then inr (bad_status resp.status_code resp.body)
    else elim (decode resp.body) [
      | inr e ↦ inr (undecodable e)
      | inl r ↦
          if is_error r
          then inr (failed r.error_type r.error)
          else inl (record { is_partial = r.is_partial; metrics = r.metrics })
    ]

limit_kept :
    {T : Type 0} (opts : List (RangeOption T)) (o : QueryRangeOptions T)
    → o.limit ≢ 0
    → (apply_range opts o).limit ≢ 0
unfolding apply_range with_start with_end with_limit
limit_kept [] o h = h
limit_kept (start_at t ∷ opts) o h = limit_kept opts (with_start t o) h
limit_kept (end_at t ∷ opts) o h = limit_kept opts (with_end t o) h
limit_kept (at_most n ∷ opts) o h = limit_kept opts (with_limit n o) (ground arith)

quotient-total : (z : ℤ) (n : ℕ) → n ≢ 0 → (q : ℤ) × (quotient z n ≡ some q)
unfolding quotient
quotient-total z ℕ.zero h = absurd (h refl)
quotient-total (pos m) (ℕ.suc n) h = (_, refl)
quotient-total (negsuc m) (ℕ.suc n) h = (_, refl)

pub quotient-pos : (n m : ℕ) → 0 < m → quotient (pos n) m ≡ some (pos (n / m))
unfolding quotient
quotient-pos n ℕ.zero h = absurd (omega arith)
quotient-pos n (ℕ.suc m) h = refl

-- Whatever options a caller gives QueryRange, the step is computed without a division by zero.
pub step-total :
    {T : Type 0} (sub : T → T → ℤ) (now before : T) (opts : List (RangeOption T))
    → ((d : ℤ) × (step sub (apply_range opts (record { start = before; end = now; limit = 1000 }))
          ≡ some d))
unfolding step
step-total sub now before opts =
    let o = apply_range opts (record { start = before; end = now; limit = 1000 }) in
    quotient-total (sub o.end o.start) o.limit
      (limit_kept opts (record { start = before; end = now; limit = 1000 }) (omega arith))

-- What a response that makes a query succeed looks like.
abbrev Succeeds :
    {F : Type 0} → (Bytes → MetricResult F ⊎ Bytes) → Response ⊎ Bytes → QueryResult F → Type 0
Succeeds {F} decode sent out =
    (resp : Response) × (r : MetricResult F) × (sent ≡ inl resp)
    × (resp.status_code ≡ pos 200)
    × (decode resp.body ≡ inl r)
    × (is_error r ≡ false)
    × (out ≡ record { is_partial = r.is_partial; metrics = r.metrics })

success_inv :
    {F : Type 0} (decode : Bytes → MetricResult F ⊎ Bytes) (resp : Response) (out : QueryResult F)
    (d : MetricResult F ⊎ Bytes)
    → decode resp.body ≡ d
    → read_response decode (inl resp) ≡ inl out
    → Succeeds decode (inl resp) out
unfolding read_response
success_inv decode resp out (inr e) hd h =
    absurd (ground (arith, int_beq_iff resp.status_code (pos 200)))
success_inv decode resp out (inl r) hd h = (
  resp,
  r,
  refl,
  ground (arith, int_beq_iff resp.status_code (pos 200)),
  hd,
  ground arith,
  ground arith,
)

-- A query succeeds exactly where a response arrives with status 200, decodes, and does not say that it is
-- an error; the result is then the decoded data.
read_response_iff :
    {F : Type 0} (decode : Bytes → MetricResult F ⊎ Bytes) (sent : Response ⊎ Bytes)
    (out : QueryResult F)
    → (read_response decode sent ≡ inl out) ↔ Succeeds decode sent out
unfolding read_response
read_response_iff decode (inr e) out =
    ((λ h. cc), (λ (resp, r, e', rest1, rest2, rest3, rest4). cc))
read_response_iff decode (inl resp) out = (
  success_inv decode resp out (decode resp.body) refl,
  (λ (resp', r, e, code, dec, fine, eq).
      let same_resp : resp ≡ resp' = cc in
      ground
        (arith, int_beq_iff resp.status_code (pos 200), int_beq_iff resp.status_code (pos 401))),
)
