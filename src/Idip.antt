-- ===== src/Idip.antt =====
-- idip/request.go and idip/signer/signer.go: the head of a request, and its signature. The clock, the random
-- number, the tables of Unicode and MD5 are arguments.
use opendevops_codo_golang_s.Go.Dict.{index, lookup}
use opendevops_codo_golang_s.Go.Text.{Unicode, is_ascii, to_upper, upper_byte}
use opendevops_codo_golang_s.Go.Number.{ℤ, itoa, pos}
use opendevops_codo_golang_s.Common.{
  ◌∷◌, Bytes, List, ℕ, All, foldl, if◌then◌else◌, utf8, ◌++◌, ◌≤◌, ◌⊎◌, [], inr, ◌==◌, ◌≡◌, arith,
  inl, map, true, refl, append_assoc,
}

record RequestHead : Type 0 where
  pub game_app_id : Bytes
  pub big_area : Bytes
  pub area : Bytes
  pub cmd : ℤ

unfoldable with_game_app_id : Bytes → RequestHead → RequestHead
with_game_app_id s r = record r { game_app_id = s }

unfoldable with_big_area : Bytes → RequestHead → RequestHead
with_big_area s r = record r { big_area = s }

unfoldable with_area : Bytes → RequestHead → RequestHead
with_area s r = record r { area = s }

unfoldable with_cmd : ℤ → RequestHead → RequestHead
with_cmd n r = record r { cmd = n }

-- NewRequestHead
unfoldable new_request_head : List (RequestHead → RequestHead) → RequestHead
new_request_head opts =
    foldl (λ r f. f r) (record { game_app_id = []; big_area = []; area = []; cmd = pos 0 }) opts

-- Header
pub record Header : Type 0 where
  pub app_id : Bytes
  pub time : Bytes
  pub rnd : Bytes
  pub sign_text : Bytes
  pub version : Bytes

pub record Signer : Type 0 where
  pub app_id : Bytes
  pub app_secret : Bytes
  pub timestamp : ℤ
  pub rnd : ℤ

-- NewSigner at a time and with a random number.
unfoldable new_signer : (now rnd : ℤ) → (app_id secret : Bytes) → Signer ⊎ Bytes
new_signer now rnd [] secret = inr (utf8 "appId can not empty")
new_signer now rnd (c ∷ s) [] = inr (utf8 "secret can not empty")
new_signer now rnd (c ∷ s) (d ∷ t) =
    inl (record { app_id = c ∷ s; app_secret = d ∷ t; timestamp = now; rnd = rnd })

-- strings.ReplaceAll(s, b, "") for one byte
unfoldable pub without : ℕ → Bytes → Bytes
without b [] = []
without b (c ∷ s) = let rest = without b s in if c == b then rest else c ∷ rest

module _ (unicode : Unicode) (md5_hex : Bytes → Bytes) where
  -- Signer.Sign
  unfoldable pub sign : Signer → (body tag : Bytes) → Bytes
  sign s body tag = md5_hex (tag ++ (body ++ (itoa s.timestamp ++ (itoa s.rnd ++ s.app_secret))))

  -- Signer.GenSignedHeader
  unfoldable pub gen_signed_header : Signer → (body tag version : Bytes) → Header
  unfolding sign
  gen_signed_header s body tag version = record {
    app_id = s.app_id;
    time = itoa s.timestamp;
    rnd = itoa s.rnd;
    sign_text = to_upper unicode (without b'-' (sign s body tag));
    version = elim version [ [] ↦ utf8 "v1" | c ∷ t ↦ c ∷ t ];
  }

-- Header.Header2Map
unfoldable pub header2map : Header → List (Bytes × Bytes)
header2map h =
    (utf8 "cbb-sign-appid", h.app_id)
    ∷ (utf8 "cbb-sign-time", h.time)
    ∷ (utf8 "cbb-sign-rnd", h.rnd)
    ∷ (utf8 "cbb-sign", h.sign_text)
    ∷ (utf8 "cbb-sign-version", h.version)
    ∷ []

abbrev IsLowerHex : ℕ → Type 0
IsLowerHex c = ((b'0' ≤ c) × (c ≤ b'9')) ⊎ ((b'a' ≤ c) × (c ≤ b'f'))

hex-without : (s : Bytes) → All IsLowerHex s → without b'-' s ≡ s
unfolding without
hex-without [] h = refl
hex-without (c ∷ s) (hc, h) = ground (arith, hex-without s h)

hex-is_ascii : (s : Bytes) → All IsLowerHex s → is_ascii s ≡ true
unfolding is_ascii
hex-is_ascii [] h = refl
hex-is_ascii (c ∷ s) (hc, h) = ground (arith, hex-is_ascii s h)

-- Where MD5 gives lower-case hexadecimal digits, a server that shares the secret checks a signed header with what the
-- header itself says: under the key of the signature stands the sum, in capitals, of the tag, the body, the
-- time and the random number of the header, and the secret.
pub header2map-gen_signed_header :
    (unicode : Unicode) (md5_hex : Bytes → Bytes) (s : Signer) (body tag version : Bytes)
    → ((t : Bytes) → All IsLowerHex (md5_hex t))
    → let m = header2map (gen_signed_header unicode md5_hex s body tag version) in
      (index m (utf8 "cbb-sign-appid") ≡ s.app_id)
      × (index m (utf8 "cbb-sign")
          ≡ map upper_byte (
              md5_hex (
                tag
                ++ (body
                    ++ (index m (utf8 "cbb-sign-time")
                        ++ (index m (utf8 "cbb-sign-rnd") ++ s.app_secret))))))
unfolding header2map gen_signed_header sign to_upper index lookup
header2map-gen_signed_header unicode md5_hex s body tag version hex =
    let signed = tag ++ (body ++ (itoa s.timestamp ++ (itoa s.rnd ++ s.app_secret))) in
    (
      refl,
      rw (hex-without (md5_hex signed) (hex signed), hex-is_ascii (md5_hex signed) (hex signed))
          refl,
    )

-- The signature does not tell where the tag ends and the body starts: bytes that move from the head of the body
-- to the end of the tag leave the header as it is.
gen_signed_header-append :
    (unicode : Unicode) (md5_hex : Bytes → Bytes) (s : Signer) (tag moved body version : Bytes)
    → gen_signed_header unicode md5_hex s (moved ++ body) tag version
      ≡ gen_signed_header unicode md5_hex s body (tag ++ moved) version
unfolding gen_signed_header sign
gen_signed_header-append unicode md5_hex s tag moved body version =
    let rest = itoa s.timestamp ++ (itoa s.rnd ++ s.app_secret) in
    rw (append_assoc moved body rest, append_assoc tag moved (body ++ rest)) refl
