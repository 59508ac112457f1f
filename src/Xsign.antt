-- ===== src/Xsign.antt =====
-- middleware/xsign.middleware.go and tools/xsgin/sign.v3.go: the signature of requests. MD5
-- and the clock are parameters.
pub mod Laws
use opendevops_codo_golang_s.Go.Query.{Values, get, set, del, encode, parse_query}
use opendevops_codo_golang_s.Go.Number.{ℤ, itoa, pos, atoi, negsuc}
use opendevops_codo_golang_s.Common.{
  Bytes, List, utf8, Bool, Option, [], if◌then◌else◌, some, true, ◌++◌, ◌⊎◌, inr, none, not, same,
  ◌∷◌, inl, ltb, ◌*◌, false, foldl,
}

abbrev pub x_sign_key : Bytes
x_sign_key = utf8 "x-sign"

abbrev pub x_timestamp_key : Bytes
x_timestamp_key = utf8 "x-ts"

-- The fields of http.Request that are read. A body is nil or what it gives when it is read.
pub record Request : Type 0 where
  pub method : Bytes
  pub raw_query : Bytes
  pub content_length : ℤ
  pub body : Option Bytes

-- XSignMiddlewareOptions, without the logger.
pub record XSignOptions : Type 0 where
  pub sign_key : Bytes
  pub enabled : Bool

unfoldable default_xsign_options : XSignOptions
default_xsign_options = record { sign_key = utf8 "123456"; enabled = true }

unfoldable pub with_sign_key : Bytes → XSignOptions → XSignOptions
with_sign_key key o = record o { sign_key = key }

unfoldable pub with_enabled : Bool → XSignOptions → XSignOptions
with_enabled b o = record o { enabled = b }

-- NewXSignMiddleware
unfoldable pub new_xsign_middleware : List (XSignOptions → XSignOptions) → XSignOptions
unfolding default_xsign_options
new_xsign_middleware opts = foldl (λ o f. f o) default_xsign_options opts

-- MD5: the error of Write, and the sum of all that was written, as hexadecimal digits.
pub record Md5 : Type 0 where
  pub write_error : Bytes → Option Bytes
  pub md5_hex : Bytes → Bytes

-- How ServerHTTP ends: without a word, with status 400 and a message, or in `next`.
pub data Outcome : Type 0 where
  silent : Outcome
  rejected : Bytes → Outcome
  passed : Request → Outcome

-- More than the minute that is tolerated, in nanoseconds.
unfoldable pub expired : ℤ → Bool
expired (pos n) = ltb 60_000_000_000 n
expired (negsuc n) = false

unfoldable below_16_mb : ℤ → Bool
below_16_mb (pos n) = ltb n (16 * 1024 * 1024)
below_16_mb (negsuc n) = true

-- What the body adds to the content that is signed; reading leaves the body as it was.
unfoldable pub signed_body : Request → Bytes
unfolding below_16_mb
signed_body r = if below_16_mb r.content_length then elim r.body [ none ↦ [] | some b ↦ b ] else []

module _ (lib : Md5) (o : XSignOptions) where
  -- SignV3.CheckSum behind one Write.
  unfoldable pub check_sum : Bytes → Bytes
  check_sum content = lib.md5_hex (content ++ o.sign_key)

  unfoldable pub content_of : Values → Request → Bytes
  unfolding signed_body
  content_of query r = encode query ++ signed_body r

  -- The rest of ServerHTTP behind the test of the time.
  unfoldable pub verify : Values → Request → Outcome
  unfolding check_sum content_of
  verify query r =
      let content = content_of (del x_sign_key query) r in
      elim (lib.write_error content) [
        | some e ↦ rejected (utf8 "接口签名无效")
        | none ↦
            if same (get x_sign_key query) (check_sum content)
            then passed r
            else rejected (utf8 "接口签名无效")
      ]

  -- ServerHTTP: `since` is time.Now().Sub(time.Unix(ts, 0)) in nanoseconds.
  unfoldable pub server_http : (since : ℤ → ℤ) → Request → Outcome
  unfolding verify expired
  server_http since r =
      if not o.enabled
      then silent
      else if same r.method (utf8 "OPTIONS")
      then silent
      else if expired (since (atoi (get x_timestamp_key (parse_query r.raw_query))).value)
      then rejected (utf8 "接口签名已过期")
      else verify (parse_query r.raw_query) r

  -- The query that ClientHTTP signs, at a Unix time in seconds.
  unfoldable pub stamped : (now : ℤ) → Request → Values
  stamped now r = set x_timestamp_key (itoa now) (del x_sign_key (parse_query r.raw_query))

  -- The query that ClientHTTP sends.
  unfoldable pub signed : (now : ℤ) → Request → Values
  unfolding stamped check_sum content_of
  signed now r = set x_sign_key (check_sum (content_of (stamped now r) r)) (stamped now r)

  -- ClientHTTP: the request with its new query, or the error of Write.
  unfoldable pub client_http : (now : ℤ) → Request → Request ⊎ Bytes
  unfolding signed stamped content_of
  client_http now r = elim (lib.write_error (content_of (stamped now r) r)) [
    | some e ↦ inr e
    | none ↦ inl (record r { raw_query = encode (signed now r) })
  ]
