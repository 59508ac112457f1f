-- ===== src/Xhttp/Do.antt =====
-- Do of client/xhttp/client.go with client.dooptions.go. http.Client.Do, the JSON decoder of the reason, the
-- providers of tracing and metrics, and the clock are parameters: what they are told is recorded.
use opendevops_codo_golang_s.Xhttp.{header_to_map, header_value, HeaderValue, str_limit}
use opendevops_codo_golang_s.Go.Number.{ℤ, pos, negsuc}
use opendevops_codo_golang_s.Common.{
  ◌∷◌, Bytes, List, false, if◌then◌else◌, ℕ, All, Bool, Option, [], inl, ◌≡◌, ◌≢◌, ◌⊎◌, foldl, inr,
  some, true, ltb, none, refl, utf8, ◌*◌, ap, ◌∙◌,
}

-- http.Response: a body is what it gives until it ends, and whether it ends with an error.
pub record Response : Type 0 where
  pub status_code : ℤ
  pub content_length : ℤ
  pub header : List (Bytes × List Bytes)
  pub body : Bytes
  pub body_fails : Bool

-- options: recordSize
pub record DoOptions : Type 0 where
  pub record_size : ℕ

unfoldable default_do_options : DoOptions
default_do_options = record { record_size = 512 }

-- DoOptionsWithRecordSize.apply
unfoldable with_record_size : ℕ → DoOptions → DoOptions
with_record_size n o = record o { record_size = n }

-- What Do tells the span and the two instruments.
pub data Told : Type 0 where
  failed_span : Bytes → Told
  requests : (operation : Bytes) (code : ℤ) (reason : Bytes) → Told
  seconds : (operation : Bytes) → Told
  event : (headers : List (Bytes × HeaderValue)) (body : Bytes) → Told

-- Below four megabytes; a length of -1 is unknown.
unfoldable pub is_small : ℤ → Bool
is_small (pos n) = ltb n (1024 * 1024 * 4)
is_small (negsuc n) = true

-- io.ReadAll, its error dropped, and the new body, which ends well.
unfoldable buffered : Response → Response
buffered r = record r { body_fails = false }

-- What Do has read of the body.
unfoldable pub recorded_body : Response → Bytes
unfolding is_small
recorded_body r = if is_small r.content_length then r.body else []

-- The response that Do returns.
unfoldable pub passed_on : Response → Response
unfolding is_small buffered
passed_on r = if is_small r.content_length then buffered r else r

-- The error of Do is nil from here on.
abbrev returned : List Told × Option Response → List Told × Option (Response ⊎ Bytes)
returned (told, none) = (told, none)
returned (told, some r) = (told, some (inl r))

module _ (reason_of : Bytes → Bytes) (operation : Bytes) where
  -- The text that is recorded as the reason.
  unfoldable pub reason : Response → Bytes
  unfolding is_small
  reason r = if is_small r.content_length then reason_of r.body else []

  -- Behind headerToMap: `none` where it panics.
  abbrev traced :
      DoOptions → Response → Option (List (Bytes × HeaderValue)) → List Told × Option Response
  traced o r none = (requests operation r.status_code (reason r) ∷ seconds operation ∷ [], none)
  traced o r (some m) = (
    requests operation r.status_code (reason r)
        ∷ seconds operation
        ∷ event m (str_limit (recorded_body r) o.record_size (utf8 "..."))
        ∷ [],
    some (passed_on r),
  )

  -- Do behind its options and http.Client.Do. The result is `none` where headerToMap panics.
  abbrev finished : DoOptions → Response ⊎ Bytes → List Told × Option (Response ⊎ Bytes)
  finished o (inr e) = (failed_span e ∷ [], some (inr e))
  finished o (inl r) = returned (traced o r (header_to_map r.header))

  -- Do: `sent` is what http.Client.Do returns.
  unfoldable pub do_request :
      List (DoOptions → DoOptions) → Response ⊎ Bytes → List Told × Option (Response ⊎ Bytes)
  unfolding default_do_options
  do_request opts sent = finished (foldl (λ o f. f o) default_do_options opts) sent

-- Every key of the header has a value.
abbrev pub HasValues : List (Bytes × List Bytes) → Type 0
HasValues = All (λ (p : Bytes × List Bytes). p.1 ≢ [])

header_value-total : (vs : List Bytes) → vs ≢ [] → (v : HeaderValue) × (header_value vs ≡ some v)
unfolding header_value
header_value-total [] h = absurd (h refl)
header_value-total (v ∷ []) h = (_, refl)
header_value-total (v ∷ w ∷ vs) h = (_, refl)

header_to_map-total :
    (header : List (Bytes × List Bytes))
    → HasValues header
    → (m : List (Bytes × HeaderValue)) × (header_to_map header ≡ some m)
unfolding header_to_map
header_to_map-total [] h = ([], refl)
header_to_map-total ((k, vs) ∷ rest) (hv, h) =
    let (v, e) = header_value-total vs hv in
    let (m, e') = header_to_map-total rest h in ((k, v) ∷ m, rw (e, e') refl)

-- The size to which the body is cut where it is recorded.
unfoldable pub record_size_of : List (DoOptions → DoOptions) → ℕ
unfolding default_do_options
record_size_of opts = (foldl (λ o f. f o) default_do_options opts).record_size

-- What Do is to tell of a response: one count with its status, the time, and one event with its header and the
-- start of its body; a body of four megabytes or more counts as empty here.
abbrev pub all_told :
    (Bytes → Bytes) → Bytes → (record_size : ℕ) → Response → List (Bytes × HeaderValue) → List Told
all_told reason_of operation record_size r m =
    let small = is_small r.content_length in
    requests operation r.status_code (if small then reason_of r.body else [])
    ∷ seconds operation
    ∷ event m (str_limit (if small then r.body else []) record_size (utf8 "..."))
    ∷ []

small_buffered :
    (r : Response)
    → is_small r.content_length ≡ true
    → passed_on r ≡ record r { body_fails = false }
unfolding passed_on buffered
small_buffered r small = rw small refl

-- What Do does with a response whose header headerToMap reads.
do_request-traced :
    (reason_of : Bytes → Bytes) (operation : Bytes) (opts : List (DoOptions → DoOptions))
    (r : Response) (m : List (Bytes × HeaderValue))
    → header_to_map r.header ≡ some m
    → do_request reason_of operation opts (inl r)
      ≡ (all_told reason_of operation (record_size_of opts) r m, some (inl (passed_on r)))
unfolding do_request record_size_of reason recorded_body
do_request-traced reason_of operation opts r m e =
    let o = foldl (λ o f. f o) default_do_options opts in
    ap (λ h. returned (traced reason_of operation o r h)) e

-- Where the length is unknown or below four megabytes, a body that breaks off in the middle is handed on as one that
-- ends well.
pub do_request_truncated :
    (reason_of : Bytes → Bytes) (operation : Bytes) (opts : List (DoOptions → DoOptions))
    (r : Response)
    → HasValues r.header
    → is_small r.content_length ≡ true
    → (do_request reason_of operation opts (inl r)).1 ≡ some (inl (record r { body_fails = false }))
do_request_truncated reason_of operation opts r h small =
    let (m, e) = header_to_map-total r.header h in
    let done = do_request-traced reason_of operation opts r m e in
    ap (λ p. p.1) done ∙ ap (λ r'. some (inl r')) (small_buffered r small)
