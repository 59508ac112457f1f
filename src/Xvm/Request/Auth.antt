-- ===== src/Xvm/Request/Auth.antt =====
-- The credentials in the header that a client of client/xvm sends.
use opendevops_codo_golang_s.Go.Query.RoundTrip.{cut-append}
use opendevops_codo_golang_s.Go.Query.Escape.{IsByte}
use opendevops_codo_golang_s.Go.Base64.{unbase64, base64, unbase64-base64}
use opendevops_codo_golang_s.Go.Query.{cut}
use opendevops_codo_golang_s.Go.Text.{Lacks}
use opendevops_codo_golang_s.Go.Query.Canonical.{IsText}
use opendevops_codo_golang_s.Xvm.Request.{auth_header, with_basic_auth, ClientOptions}
use opendevops_codo_golang_s.Common.{
  ◌∷◌, Bytes, ◌++◌, ◌≢◌, [], utf8, ◌≡◌, All-append, some, refl, arith,
}

credentials_read :
    (username password : Bytes)
    → IsText username
    → IsText password
    → Lacks b':' username
    → cut b':' (unbase64 (base64 (username ++ (utf8 ":" ++ password)))) ≡ (username, password)
credentials_read username password hu hp l =
    let text : IsText (username ++ (utf8 ":" ++ password)) =
      All-append IsByte username (utf8 ":" ++ password) hu (omega arith, hp) in
    rw (unbase64-base64 (username ++ (utf8 ":" ++ password)) text)
      (cut-append b':' username password l)

-- Where both texts are of bytes, at least one of them is not empty, and the name has no colon, the header that
-- WithClientOptionBasicAuth and addAuthHeader make holds the name and the password: a server that decodes
-- the text in base 64 and cuts it at the first colon reads them.
pub auth_header-with_basic_auth :
    (username password : Bytes) (o : ClientOptions)
    → IsText username
    → IsText password
    → Lacks b':' username
    → username ++ password ≢ []
    → (code : Bytes) × (auth_header (with_basic_auth username password o)
        ≡ some (utf8 "Basic " ++ code))
      × (cut b':' (unbase64 code) ≡ (username, password))
unfolding auth_header with_basic_auth
auth_header-with_basic_auth [] [] o hu hp l h = absurd (h refl)
auth_header-with_basic_auth [] (c ∷ s) o hu hp l h =
    (base64 (utf8 ":" ++ c ∷ s), refl, credentials_read [] (c ∷ s) hu hp l)
auth_header-with_basic_auth (c ∷ s) password o hu hp l h =
    (base64 ((c ∷ s) ++ (utf8 ":" ++ password)), refl, credentials_read (c ∷ s) password hu hp l)
