-- ===== src/Examples/Services.antt =====
-- Tests of the models of k2, xnet/xtls, idip and of Do of client/xhttp.
use opendevops_codo_golang_s.Go.Dict.{index, lookup}
use opendevops_codo_golang_s.Go.Text.{bare, to_upper, upper_byte, is_ascii}
use opendevops_codo_golang_s.K2.OverHttp.{http_response, get_config-do_request}
use opendevops_codo_golang_s.Go.Number.{pos}
use opendevops_codo_golang_s.Xhttp.Do.{is_small, do_request_truncated}
use opendevops_codo_golang_s.Idip.{
  Signer, header2map, gen_signed_header, sign, without, header2map-gen_signed_header,
}
use opendevops_codo_golang_s.Xtls.{X509, ssl_pinning_checker}
use opendevops_codo_golang_s.K2.{HttpResponse, Net, auth_get_config, get_config, from_api}
use opendevops_codo_golang_s.Common.{
  ◌∷◌, Bytes, List, [], inl, none, utf8, true, ◌≡◌, refl, some, false, map, ◌++◌, arith,
}
use opendevops_codo_golang_s.Xhttp.Do.{Response, do_request}
use opendevops_codo_golang_s.Xtls.{cal_cert_pub_hash}
use opendevops_codo_golang_s.Go.Base64.{base64}

abbrev served : HttpResponse
served = record { status_code = pos 200; body = inl (utf8 "{}") }

abbrev settings : List (Bytes × Bytes)
settings = (utf8 "level", utf8 "info") ∷ []

abbrev net : Net
net = record {
  request_error = λ url. none;
  send = λ r. inl served;
  unmarshal = λ b. inl (record { code = 0; msg = utf8 "ok"; content = settings });
}

configured : auth_get_config net (utf8 "http://k2") (utf8 "key") ≡ inl settings
unfolding auth_get_config
configured = refl

-- A certificate is its key, and a sum is the key itself.
abbrev bare_keys : X509 Bytes
bare_keys = record { parse = λ raw. inl raw; public_key = λ cert. inl cert; sha256 = λ s. s }

pinned : ssl_pinning_checker bare_keys (utf8 "YWJj") (utf8 "abc" ∷ []) ≡ none
unfolding ssl_pinning_checker cal_cert_pub_hash base64
pinned = refl

abbrev signer : Signer
signer = record { app_id = utf8 "app"; app_secret = utf8 "s"; timestamp = pos 10; rnd = pos 3 }

abbrev truncated : Response
truncated = record {
  status_code = pos 200;
  content_length = pos 100;
  header = (utf8 "Accept", utf8 "a" ∷ utf8 "b" ∷ []) ∷ [];
  body = utf8 "half";
  body_fails = true;
}

is_smaller : is_small (pos 100) ≡ true
unfolding is_small
is_smaller = refl

-- The server that breaks off, behind the client of the SDK.
abbrev over_do : Net
over_do = record net {
  send = λ r. inl (http_response (utf8 "unexpected EOF") (record truncated { body_fails = false }));
}

handed_on :
    (do_request (λ b. []) (utf8 "/") [] (inl truncated)).1
    ≡ some (inl (record truncated { body_fails = false }))
handed_on = do_request_truncated (λ b. []) (utf8 "/") [] truncated ((λ e. cc), tt) is_smaller

get_config-do_request_example :
    get_config over_do (utf8 "http://k2") [] ≡ from_api (over_do.unmarshal (utf8 "half"))
get_config-do_request_example =
    get_config-do_request over_do (utf8 "http://k2") (utf8 "unexpected EOF") [] (λ b. []) (utf8 "/")
      [] truncated (record truncated { body_fails = false }) refl handed_on refl refl is_smaller
      ((λ e. cc), tt)

-- A sum whose digits are "ab", whatever the text.
abbrev ab_sum : Bytes → Bytes
ab_sum t = utf8 "ab"

abbrev gm_signer : Signer
gm_signer = record {
  app_id = utf8 "gm";
  app_secret = utf8 "s3";
  timestamp = pos 1700000000;
  rnd = pos 42;
}

gm_header :
    index
      (header2map (gen_signed_header bare ab_sum gm_signer (utf8 "{}") (utf8 "t") []))
      (utf8 "cbb-sign")
    ≡ utf8 "AB"
unfolding header2map gen_signed_header sign to_upper index lookup without is_ascii
gm_header = refl

header2map-gen_signed_header_example :
    let m = header2map (gen_signed_header bare ab_sum gm_signer (utf8 "{}") (utf8 "t") []) in
    (index m (utf8 "cbb-sign-appid") ≡ utf8 "gm")
    × (index m (utf8 "cbb-sign")
        ≡ map upper_byte (
            ab_sum (
              utf8 "t"
              ++ (utf8 "{}"
                  ++ (index m (utf8 "cbb-sign-time")
                      ++ (index m (utf8 "cbb-sign-rnd") ++ utf8 "s3"))))))
header2map-gen_signed_header_example =
    header2map-gen_signed_header bare ab_sum gm_signer (utf8 "{}") (utf8 "t") [] (λ t. omega arith)
