-- ===== src/K2.antt =====
-- k2/k2.go: reading a configuration over HTTP. The client, http.NewRequestWithContext, io.ReadAll and the JSON
-- decoder are parameters.
pub mod OverHttp
use opendevops_codo_golang_s.Go.Dict.{int_beq, int_beq_iff}
use opendevops_codo_golang_s.Go.Number.{ℤ, pos}
use opendevops_codo_golang_s.Common.{
  ◌∷◌, Bytes, List, ℕ, ◌⊎◌, Option, [], inr, some, utf8, ◌≡◌, inl, none, if◌then◌else◌, ◌↔◌, ◌==◌,
  arith, refl,
}

abbrev codo_api_success_code : ℕ
codo_api_success_code = 0

abbrev gateway_auth_key_header : Bytes
gateway_auth_key_header = utf8 "auth_key"

-- http.Cookie: the fields that are set.
pub record Cookie : Type 0 where
  pub name : Bytes
  pub content : Bytes

-- The request that getConfig builds.
pub record Request : Type 0 where
  pub url : Bytes
  pub cookies : List Cookie

-- Response, without the reason.
pub record ApiResponse : Type 0 where
  pub code : ℕ
  pub msg : Bytes
  pub content : List (Bytes × Bytes)

-- http.Response: the status, and what reading the body gives.
pub record HttpResponse : Type 0 where
  pub status_code : ℤ
  pub body : Bytes ⊎ Bytes

-- What getConfig calls: the error of http.NewRequestWithContext, Client.Do and json.Unmarshal.
pub record Net : Type 0 where
  pub request_error : Bytes → Option Bytes
  pub send : Request → HttpResponse ⊎ Bytes
  pub unmarshal : Bytes → ApiResponse ⊎ Bytes

-- The errors of getConfig, one for each of its texts.
pub data ConfigError : Type 0 where
  unbuilt unsent unread undecoded : Bytes → ConfigError
  bad_status : ℤ → ConfigError
  bad_code : ℕ → ConfigError

abbrev Answer : Type 0
Answer = List (Bytes × Bytes) ⊎ ConfigError

-- Behind json.Unmarshal.
abbrev pub from_api : ApiResponse ⊎ Bytes → Answer
from_api (inr e) = inr (undecoded e)
from_api (inl r) = if r.code == codo_api_success_code then inl r.content else inr (bad_code r.code)

-- Behind io.ReadAll.
abbrev from_body : Net → Bytes ⊎ Bytes → Answer
from_body net (inr e) = inr (unread e)
from_body net (inl b) = from_api (net.unmarshal b)

-- Behind Client.Do.
abbrev from_http : Net → HttpResponse ⊎ Bytes → Answer
from_http net (inr e) = inr (unsent e)
from_http net (inl resp) =
    if int_beq resp.status_code (pos 200)
    then from_body net resp.body
    else inr (bad_status resp.status_code)

-- getConfig
unfoldable pub get_config : Net → Bytes → List Cookie → Answer
get_config net url cookies = elim (net.request_error url) [
  | some e ↦ inr (unbuilt e)
  | none ↦ from_http net (net.send (record { url = url; cookies = cookies }))
]

-- NewAuthConfig
unfoldable auth_cookies : (auth_key : Bytes) → List Cookie
auth_cookies auth_key = record { name = gateway_auth_key_header; content = auth_key } ∷ []

-- NoAuthConfig.GetConfig and AuthConfig.GetConfig
unfoldable no_auth_get_config : Net → Bytes → Answer
unfolding get_config
no_auth_get_config net url = get_config net url []

unfoldable pub auth_get_config : Net → (url auth_key : Bytes) → Answer
unfolding get_config auth_cookies
auth_get_config net url auth_key = get_config net url (auth_cookies auth_key)

-- What makes getConfig return the data m.
abbrev Delivers : Net → Bytes → List Cookie → List (Bytes × Bytes) → Type 0
Delivers net url cookies m =
    (body msg : Bytes) × (net.request_error url ≡ none)
    × (net.send (record { url = url; cookies = cookies })
        ≡ inl (record { status_code = pos 200; body = inl body }))
    × (net.unmarshal body ≡ inl (record { code = 0; msg = msg; content = m }))

from_api_inv :
    (a : ApiResponse ⊎ Bytes) (m : List (Bytes × Bytes))
    → from_api a ≡ inl m
    → (msg : Bytes) × (a ≡ inl (record { code = 0; msg = msg; content = m }))
from_api_inv (inr e) m h = absurd cc
from_api_inv (inl r) m h =
    let code : r.code ≡ 0 = ground arith in
    let content : r.content ≡ m = ground arith in (r.msg, rw (← code, ← content) refl)

from_body_inv :
    (net : Net) (b : Bytes ⊎ Bytes) (m : List (Bytes × Bytes))
    → from_body net b ≡ inl m
    → (body msg : Bytes) × (b ≡ inl body)
      × (net.unmarshal body ≡ inl (record { code = 0; msg = msg; content = m }))
from_body_inv net (inr e) m h = absurd cc
from_body_inv net (inl b) m h =
    let (msg, e) = from_api_inv (net.unmarshal b) m h in (b, msg, refl, e)

from_http_inv :
    (net : Net) (s : HttpResponse ⊎ Bytes) (m : List (Bytes × Bytes))
    → from_http net s ≡ inl m
    → (body msg : Bytes) × (s ≡ inl (record { status_code = pos 200; body = inl body }))
      × (net.unmarshal body ≡ inl (record { code = 0; msg = msg; content = m }))
from_http_inv net (inr e) m h = absurd cc
from_http_inv net (inl resp) m h =
    let status : resp.status_code ≡ pos 200 =
      ground (arith, int_beq_iff resp.status_code (pos 200)) in
    let read : from_body net resp.body ≡ inl m =
      ground (arith, int_beq_iff resp.status_code (pos 200)) in
    let (body, msg, e, d) = from_body_inv net resp.body m read in (body, msg, cc, d)

get_config_inv :
    (net : Net) (url : Bytes) (cookies : List Cookie) (m : List (Bytes × Bytes)) (e : Option Bytes)
    → net.request_error url ≡ e
    → get_config net url cookies ≡ inl m
    → Delivers net url cookies m
unfolding get_config
get_config_inv net url cookies m (some e) r h = absurd (ground arith)
get_config_inv net url cookies m none r h =
    let (body, msg, sent, d) =
      from_http_inv net (net.send (record { url = url; cookies = cookies })) m
        (rw (get_config, r) at h) in
    (body, msg, r, sent, d)

-- GetConfig returns data exactly where the request is built and answered with status 200, a body that is read
-- whole and decodes, and the success code; the data is then that of the response.
get_config_iff :
    (net : Net) (url : Bytes) (cookies : List Cookie) (m : List (Bytes × Bytes))
    → (get_config net url cookies ≡ inl m) ↔ Delivers net url cookies m
unfolding get_config
get_config_iff net url cookies m = (
  get_config_inv net url cookies m (net.request_error url) refl,
  (λ (body, msg, built, sent, d). rw (get_config, built, sent, d) refl),
)
