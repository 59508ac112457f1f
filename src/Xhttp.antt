-- ===== src/Xhttp.antt =====
-- client/xhttp/client.go: ParseProxy, headerToMap and strLimit. url.Parse is a parameter.
pub mod Laws
pub mod Do
pub mod Order
pub mod Client
use opendevops_codo_golang_s.Common.{
  Bool, Bytes, List, Option, same, ℕ, ◌⊎◌, if◌then◌else◌, inl, none, some, utf8, ltb, ◌++◌, ◌||◌,
  ◌∷◌, [], inr, length, take,
}

-- What ParseProxy returns: the URL, which is nil for an empty text, or the text of url.Parse's error.
pub record ProxyLib (U : Type 0) : Type 0 where
  pub parse : Bytes → U ⊎ Bytes
  pub scheme : U → Bytes

-- Behind the second attempt: what it gave, and what the first one gave.
abbrev pub retried : {U : Type 0} → U ⊎ Bytes → U ⊎ Bytes → Option U ⊎ Bytes
retried (inl u) first = inl (some u)
retried (inr e) (inl u) = inl (some u)
retried (inr e) (inr e') = inr e'

module _ {U : Type 0} (lib : ProxyLib U) where
  unfoldable pub known_scheme : U → Bool
  known_scheme u =
      same (lib.scheme u) (utf8 "http")
      || same (lib.scheme u) (utf8 "https")
      || same (lib.scheme u) (utf8 "socks5")

  -- Behind the first attempt.
  abbrev pub first_try : Bytes → U ⊎ Bytes → Option U ⊎ Bytes
  first_try proxy (inr e) = retried (lib.parse (utf8 "http://" ++ proxy)) (inr e)
  first_try proxy (inl u) =
      if known_scheme u then inl (some u) else retried (lib.parse (utf8 "http://" ++ proxy)) (inl u)

  -- ParseProxy
  unfoldable pub parse_proxy : Bytes → Option U ⊎ Bytes
  parse_proxy [] = inl none
  parse_proxy (c ∷ s) = first_try (c ∷ s) (lib.parse (c ∷ s))

-- What headerToMap puts under a key: v itself, or v[0].
pub data HeaderValue : Type 0 where
  many : List Bytes → HeaderValue
  one : Bytes → HeaderValue

unfoldable pub header_value : List Bytes → Option HeaderValue
header_value [] = none
header_value (v ∷ []) = some (one v)
header_value (v ∷ w ∷ vs) = some (many (v ∷ w ∷ vs))

abbrev keep :
    Bytes
    → Option HeaderValue
    → Option (List (Bytes × HeaderValue))
    → Option (List (Bytes × HeaderValue))
keep k none rest = none
keep k (some v) none = none
keep k (some v) (some m) = some ((k, v) ∷ m)

-- headerToMap on a header with its keys in some order: `none` where v[0] panics.
unfoldable pub header_to_map : List (Bytes × List Bytes) → Option (List (Bytes × HeaderValue))
unfolding header_value
header_to_map [] = some []
header_to_map ((k, v) ∷ rest) = keep k (header_value v) (header_to_map rest)

-- strLimit; its callers pass lengths that are not negative.
unfoldable pub str_limit : Bytes → ℕ → Bytes → Bytes
str_limit str n suffix = if ltb (length str) n then str else take n str ++ suffix
