-- ===== src/K2/OverHttp.antt =====
-- getConfig of k2/k2.go over Do of client/xhttp/client.go, the client that the SDK gives it.
use opendevops_codo_golang_s.Go.Number.{pos}
use opendevops_codo_golang_s.Xhttp.Do.{
  Response, DoOptions, do_request, is_small, HasValues, do_request_truncated,
}
use opendevops_codo_golang_s.K2.{get_config, Net, HttpResponse, Cookie, from_api}
use opendevops_codo_golang_s.Common.{
  Bytes, List, if◌then◌else◌, inr, inl, ◌≡◌, none, some, true, false, refl,
}

-- The response of Do as getConfig reads it: `broken` is the error of a body that breaks off.
abbrev pub http_response : (broken : Bytes) → Response → HttpResponse
http_response broken r = record {
  status_code = r.status_code;
  body = if r.body_fails then inr broken else inl r.body;
}

-- Where Do sends the request, and the server answers with status 200, a length that is unknown or below four
-- megabytes, and a header with values, GetConfig decodes what arrived of the body: also where the body broke off,
-- which it can never report.
pub get_config-do_request :
    (net : Net) (url broken : Bytes) (cookies : List Cookie) (reason_of : Bytes → Bytes)
    (operation : Bytes) (opts : List (DoOptions → DoOptions)) (r out : Response)
    → net.request_error url ≡ none
    → (do_request reason_of operation opts (inl r)).1 ≡ some (inl out)
    → net.send (record { url = url; cookies = cookies }) ≡ inl (http_response broken out)
    → r.status_code ≡ pos 200
    → is_small r.content_length ≡ true
    → HasValues r.header
    → get_config net url cookies ≡ from_api (net.unmarshal r.body)
unfolding get_config
get_config-do_request net url broken cookies reason_of operation opts r out built did sent status
      small values =
    let whole = do_request_truncated reason_of operation opts r values small in
    let same : out ≡ record r { body_fails = false } = cc in
    rw (get_config, built, sent, same, status) refl
