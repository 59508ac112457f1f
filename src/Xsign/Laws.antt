-- ===== src/Xsign/Laws.antt =====
-- A request that ClientHTTP signs, at ServerHTTP (middleware/xsign.middleware.go).
use opendevops_codo_golang_s.Go.Query.Digits.{itoa-IsText}
use opendevops_codo_golang_s.Go.Query.Parsed.{parse_query-IsCanonical}
use opendevops_codo_golang_s.Go.Query.RoundTrip.{parse_query-encode}
use opendevops_codo_golang_s.Go.Query.Keys.{
  NoKey, del-set, set-NoKey, del-NoKey, get-set_self, get-set_other,
}
use opendevops_codo_golang_s.Go.Number.Decimal.{parse_int-format_uint}
use opendevops_codo_golang_s.Go.Query.{Values, encode, del, get, parse_query}
use opendevops_codo_golang_s.Go.Query.Canonical.{
  IsText, IsCanonical, set-IsCanonical, del-IsCanonical,
}
use opendevops_codo_golang_s.Common.{
  ℕ, ◌<◌, Bytes, Option, ◌^◌, ◌≡◌, inl, true, none, refl, same, ◌↔◌, arith, same_refl, some, utf8,
  false, same_iff, ◌++◌, ap, ◌∙◌, subst, [], ◌≢◌, ◌≤◌, Bool-cases, if◌then◌else◌, inr, ltb,
}
use opendevops_codo_golang_s.Xsign.{
  Md5, server_http, verify, XSignOptions, content_of, Request, client_http, signed, signed_body,
  stamped, check_sum, passed, x_sign_key, x_timestamp_key, expired, below_16_mb,
}
use opendevops_codo_golang_s.Go.Number.{atoi, itoa, ℤ, pos, negsuc}

atoi-itoa : (n : ℕ) → n < 2 ^ 63 → (atoi (itoa (pos n))).value ≡ pos n
unfolding atoi itoa
atoi-itoa n h = rw (parse_int-format_uint n h) refl

module _ (lib : Md5) (o : XSignOptions) where
  -- The queries that ClientHTTP builds, where the query of the request and the sums are of bytes.
  module _ (now : ℕ) (r : Request) (of_bytes : IsText r.raw_query)
      (digits : (s : Bytes) → IsText (lib.md5_hex s)) where
    stamped-IsCanonical : IsCanonical (stamped lib o (pos now) r)
    unfolding stamped
    stamped-IsCanonical =
        set-IsCanonical x_timestamp_key (itoa (pos now)) (del x_sign_key (parse_query r.raw_query))
          (omega arith) (itoa-IsText (pos now))
          (del-IsCanonical x_sign_key (parse_query r.raw_query)
            (parse_query-IsCanonical r.raw_query of_bytes))

    stamped-NoKey : NoKey x_sign_key (stamped lib o (pos now) r)
    unfolding stamped
    stamped-NoKey =
        set-NoKey x_sign_key x_timestamp_key (itoa (pos now))
          (del x_sign_key (parse_query r.raw_query)) refl
          (del-NoKey x_sign_key (parse_query r.raw_query)
            (parse_query-IsCanonical r.raw_query of_bytes))

    -- The query arrives as it was signed.
    signed_arrives : parse_query (encode (signed lib o (pos now) r)) ≡ signed lib o (pos now) r
    unfolding signed check_sum
    signed_arrives = parse_query-encode (signed lib o (pos now) r) (
        set-IsCanonical x_sign_key
          (check_sum lib o (content_of lib o (stamped lib o (pos now) r) r))
          (stamped lib o (pos now) r) (omega arith)
          (digits (content_of lib o (stamped lib o (pos now) r) r ++ o.sign_key))
          stamped-IsCanonical)

    del-signed : del x_sign_key (signed lib o (pos now) r) ≡ stamped lib o (pos now) r
    unfolding signed
    del-signed =
        del-set x_sign_key (check_sum lib o (content_of lib o (stamped lib o (pos now) r) r))
          (stamped lib o (pos now) r) stamped-NoKey

  get-signed :
      (now : ℕ) (r : Request)
      → (get x_sign_key (signed lib o (pos now) r)
          ≡ check_sum lib o (content_of lib o (stamped lib o (pos now) r) r))
        × (get x_timestamp_key (signed lib o (pos now) r) ≡ itoa (pos now))
  unfolding signed stamped
  get-signed now r =
      let sum = check_sum lib o (content_of lib o (stamped lib o (pos now) r) r) in
      (
        get-set_self x_sign_key sum (stamped lib o (pos now) r),
        get-set_other x_timestamp_key x_sign_key sum (stamped lib o (pos now) r) refl
            ∙ get-set_self x_timestamp_key (itoa (pos now))
                (del x_sign_key (parse_query r.raw_query)),
      )

  -- The request that ClientHTTP sends.
  abbrev sent_request : (now : ℤ) → Request → Request
  sent_request now r = record r { raw_query = encode (signed lib o now r) }

  client_inv :
      (now : ℤ) (r sent : Request) (w : Option Bytes)
      → lib.write_error (content_of lib o (stamped lib o now r) r) ≡ w
      → client_http lib o now r ≡ inl sent
      → (lib.write_error (content_of lib o (stamped lib o now r) r) ≡ none)
        × (sent_request now r ≡ sent)
  unfolding client_http
  client_inv now r sent (some e) hw h = absurd (ground arith)
  client_inv now r sent none hw h = (hw, ground arith)

  verify-passed :
      (q : Values) (r : Request) (content : Bytes)
      → content_of lib o (del x_sign_key q) r ≡ content
      → lib.write_error content ≡ none
      → get x_sign_key q ≡ check_sum lib o content
      → verify lib o q r ≡ passed r
  unfolding verify
  verify-passed q r content e fine sum =
      rw (verify, e, fine, sum, e, same_refl (check_sum lib o content)) refl

  server_http-verify :
      (since : ℤ → ℤ) (q : Values) (r : Request)
      → parse_query r.raw_query ≡ q
      → o.enabled ≡ true
      → same r.method (utf8 "OPTIONS") ≡ false
      → expired (since (atoi (get x_timestamp_key q)).value) ≡ false
      → server_http lib o since r ≡ verify lib o q r
  unfolding server_http
  server_http-verify since q r e on method fresh = ground (arith, e, on, method, fresh)

-- A request whose query is of bytes, and which ClientHTTP signs at a Unix time within int64, passes
-- ServerHTTP with the same options and goes on unchanged, if the check is enabled, the method is not
-- OPTIONS, and the server sees the time stamp as at most a minute old. Of MD5: its hexadecimal digits
-- are bytes.
pub server_http-client_http :
    (lib : Md5) (o : XSignOptions) (since : ℤ → ℤ) (now : ℕ) (r sent : Request)
    → ((s : Bytes) → IsText (lib.md5_hex s))
    → IsText r.raw_query
    → client_http lib o (pos now) r ≡ inl sent
    → o.enabled ≡ true
    → same r.method (utf8 "OPTIONS") ≡ false
    → now < 2 ^ 63
    → expired (since (pos now)) ≡ false
    → server_http lib o since sent ≡ passed sent
unfolding content_of signed_body
server_http-client_http lib o since now r sent digits of_bytes h on method bound fresh =
    let (fine, is_sent) =
      client_inv lib o (pos now) r sent
        (lib.write_error (content_of lib o (stamped lib o (pos now) r) r)) refl h in
    let q = signed lib o (pos now) r in
    let (sum, stamp) = get-signed lib o now r in
    let read : (atoi (get x_timestamp_key q)).value ≡ pos now = rw stamp (atoi-itoa now bound) in
    let content : content_of lib o (del x_sign_key q) (sent_request lib o (pos now) r)
        ≡ content_of lib o (stamped lib o (pos now) r) r =
      ap (λ v. encode v ++ signed_body r) (del-signed lib o now r of_bytes digits) in
    subst (λ x. server_http lib o since x ≡ passed x) is_sent
      (server_http-verify lib o since q (sent_request lib o (pos now) r)
          (signed_arrives lib o now r of_bytes digits) on method (rw read fresh)
        ∙ verify-passed lib o q (sent_request lib o (pos now) r)
            (content_of lib o (stamped lib o (pos now) r) r) content fine sum)

-- At most a minute, in nanoseconds; a time stamp may also lie ahead.
abbrev pub IsRecent : ℤ → Type 0
IsRecent (pos n) = n ≤ 60_000_000_000
IsRecent (negsuc n) = Unit

-- The body that is signed: one whose length is unknown or below 16 megabytes.
abbrev pub counted_body : (content_length : ℤ) → Option Bytes → Bytes
counted_body _ none = []
counted_body (negsuc n) (some b) = b
counted_body (pos n) (some b) = if ltb n 16_777_216 then b else []

-- What a request must be for ServerHTTP to call `next`.
abbrev pub IsGenuine : Md5 → XSignOptions → (ℤ → ℤ) → Request → Type 0
IsGenuine lib o since r =
    let query = parse_query r.raw_query in
    let content = encode (del (utf8 "x-sign") query) ++ counted_body r.content_length r.body in
    (o.enabled ≡ true)
    × (r.method ≢ utf8 "OPTIONS")
    × IsRecent (since (atoi (get (utf8 "x-ts") query)).value)
    × (lib.write_error content ≡ none)
    × (get (utf8 "x-sign") query ≡ lib.md5_hex (content ++ o.sign_key))

expired-IsRecent : (since : ℤ) → (expired since ≡ false) ↔ IsRecent since
unfolding expired
expired-IsRecent (pos n) = (λ h. ground (arith, h), λ h. ground (arith, h))
expired-IsRecent (negsuc n) = (λ h. tt, λ h. refl)

signed_body-eq : (r : Request) → signed_body r ≡ counted_body r.content_length r.body
unfolding signed_body below_16_mb
signed_body-eq r = go r.content_length r.body
  where
    go :
        (l : ℤ) (body : Option Bytes)
        → (if below_16_mb l then elim body [ none ↦ [] | some b ↦ b ] else []) ≡ counted_body l body
    go (pos n) none = ground arith
    go (negsuc n) none = refl
    go (pos n) (some b) = refl
    go (negsuc n) (some b) = refl

content_of-eq :
    (lib : Md5) (o : XSignOptions) (query : Values) (r : Request)
    → content_of lib o query r ≡ encode query ++ counted_body r.content_length r.body
unfolding content_of
content_of-eq lib o query r = ap (λ b. encode query ++ b) (signed_body-eq r)

verify_inv :
    (lib : Md5) (o : XSignOptions) (q : Values) (r out : Request) (w : Option Bytes)
    → lib.write_error (content_of lib o (del x_sign_key q) r) ≡ w
    → verify lib o q r ≡ passed out
    → (out ≡ r)
      × (lib.write_error (content_of lib o (del x_sign_key q) r) ≡ none)
      × (get x_sign_key q ≡ check_sum lib o (content_of lib o (del x_sign_key q) r))
unfolding verify
verify_inv lib o q r out (some e) hw h = absurd (ground arith)
verify_inv lib o q r out none hw h = (
  ground arith,
  hw,
  (same_iff (get x_sign_key q) (check_sum lib o (content_of lib o (del x_sign_key q) r))).0
      (ground arith),
)

server_http_inv :
    (lib : Md5) (o : XSignOptions) (since : ℤ → ℤ) (r out : Request)
    → server_http lib o since r ≡ passed out
    → (o.enabled ≡ true)
      × (same r.method (utf8 "OPTIONS") ≡ false)
      × (expired (since (atoi (get x_timestamp_key (parse_query r.raw_query))).value) ≡ false)
      × (verify lib o (parse_query r.raw_query) r ≡ passed out)
unfolding server_http
server_http_inv lib o since r out h = (ground arith, ground arith, ground arith, ground arith)

-- ServerHTTP calls `next` exactly for a request whose signature is the sum of its query without the signature,
-- its body, where that is not of 16 megabytes or more, and the key, whose time stamp is at most a minute old, and
-- for whose content Write makes no error, and only where the check is enabled and the method is not OPTIONS: a
-- disabled check lets no request through. The request goes on as it came.
pub server_http-eq-passed :
    (lib : Md5) (o : XSignOptions) (since : ℤ → ℤ) (r out : Request)
    → (server_http lib o since r ≡ passed out) ↔ ((out ≡ r) × IsGenuine lib o since r)
unfolding server_http check_sum
server_http-eq-passed lib o since r out =
    let q = parse_query r.raw_query in
    let age = since (atoi (get x_timestamp_key q)).value in
    let content = content_of-eq lib o (del x_sign_key q) r in
    (
      (λ h.
          let (on, method, fresh, rest) = server_http_inv lib o since r out h in
          let (same_request, fine, sum) =
            verify_inv lib o q r out (lib.write_error (content_of lib o (del x_sign_key q) r)) refl
              rest in
          (
            same_request,
            (
              on,
              (λ e. ground (arith, method, same_iff r.method (utf8 "OPTIONS"), e)),
              (expired-IsRecent age).0 fresh,
              rw content at fine,
              rw content at sum,
            ),
          )),
      (λ (same_request, genuine).
          let (on, method, recent, fine, sum) = genuine in
          let fresh = (expired-IsRecent age).1 recent in
          let other : same r.method (utf8 "OPTIONS") ≡ false =
            elim (Bool-cases (same r.method (utf8 "OPTIONS"))) [
              | inl e ↦ absurd (method ((same_iff r.method (utf8 "OPTIONS")).0 e))
              | inr e ↦ e
            ] in
          let v : verify lib o q r ≡ passed r =
            verify-passed lib o q r
              (encode (del x_sign_key q) ++ counted_body r.content_length r.body) content fine
              sum in
          ground (arith, v, other, fresh, on)),
    )
