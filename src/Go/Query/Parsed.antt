-- ===== src/Go/Query/Parsed.antt =====
-- What URL.Query reads from a text of bytes is canonical.
use opendevops_codo_golang_s.Go.Text.{split, split-All}
use opendevops_codo_golang_s.Go.Query.Canonical.{IsText, IsCanonical, append_value-IsCanonical}
use mathlib.Core.Option
use opendevops_codo_golang_s.Go.Query.Escape.{IsByte}
use opendevops_codo_golang_s.Go.Query.{
  Pending, cut, parse_part, parse_parts, parse_query, unescape_from, digit, is_hex, query_unescape,
  Values, add_pair, unhex, contains_byte, percent, between,
}
use opendevops_codo_golang_s.Common.{
  Option, ℕ, Bytes, List, if◌then◌else◌, some, ◌<◌, ◌≡◌, All, none, true, ◌==◌, ◌∷◌, Bool-cases, [],
  arith, inl, inr, same, ◌*◌, ◌+◌,
}

-- The text, if there is one, is of bytes.
abbrev OfBytes : Option Bytes → Type 0
OfBytes none = Unit
OfBytes (some t) = IsText t

abbrev IsPending : Pending → Type 0
IsPending (digit h) = h < 16
IsPending _ = Unit

map-OfBytes :
    (c : ℕ) (o : Option Bytes) → IsByte c → OfBytes o → OfBytes (Option.map (λ t. c ∷ t) o)
map-OfBytes c none h k = tt
map-OfBytes c (some t) h k = (h, k)

unhex_bound : (c : ℕ) → is_hex c ≡ true → unhex c < 16
unhex_bound c h = ground arith

plus-IsByte : (c : ℕ) → IsByte c → IsByte (if c == b'+' then b' ' else c)
plus-IsByte c h = ground arith

unescape_from-OfBytes :
    (st : Pending) (s : Bytes) → IsPending st → IsText s → OfBytes (unescape_from st s)
unfolding unescape_from
unescape_from-OfBytes between [] p h = tt
unescape_from-OfBytes percent [] p h = tt
unescape_from-OfBytes (digit d) [] p h = tt
unescape_from-OfBytes between (c ∷ s) p (hc, h) = elim (Bool-cases (c == b'%')) [
  | inl e ↦ rw e (unescape_from-OfBytes percent s tt h)
  | inr e ↦ rw e (
      map-OfBytes (if c == b'+' then b' ' else c) (unescape_from between s) (plus-IsByte c hc)
        (unescape_from-OfBytes between s tt h))
]
unescape_from-OfBytes percent (c ∷ s) p (hc, h) = elim (Bool-cases (is_hex c)) [
  | inl e ↦ rw e (unescape_from-OfBytes (digit (unhex c)) s (unhex_bound c e) h)
  | inr e ↦ rw e tt
]
unescape_from-OfBytes (digit d) (c ∷ s) p (hc, h) = elim (Bool-cases (is_hex c)) [
  | inl e ↦
      let low = unhex_bound c e in
      rw e (
        map-OfBytes (d * 16 + unhex c) (unescape_from between s) (omega arith)
          (unescape_from-OfBytes between s tt h))
  | inr e ↦ rw e tt
]

cut-IsText : (sep : ℕ) (s : Bytes) → IsText s → IsText (cut sep s).0 × IsText (cut sep s).1
unfolding cut
cut-IsText sep [] h = (tt, tt)
cut-IsText sep (c ∷ s) (hc, h) = elim (Bool-cases (c == sep)) [
  | inl e ↦ rw e (tt, h)
  | inr e ↦ rw e ((hc, (cut-IsText sep s h).0), (cut-IsText sep s h).1)
]

add_pair-IsCanonical :
    (k w : Option Bytes) (v : Values)
    → OfBytes k
    → OfBytes w
    → IsCanonical v
    → IsCanonical (add_pair k w v)
add_pair-IsCanonical none w v hk hw c = c
add_pair-IsCanonical (some k) none v hk hw c = c
add_pair-IsCanonical (some k) (some w) v hk hw c = append_value-IsCanonical k w v hk hw c

parse_part-IsCanonical :
    (p : Bytes) (v : Values) → IsText p → IsCanonical v → IsCanonical (parse_part p v)
unfolding parse_part query_unescape
parse_part-IsCanonical p v h c = elim (Bool-cases (contains_byte b';' p)) [
  | inl e ↦ rw e c
  | inr e ↦ elim (Bool-cases (same p [])) [
    | inl e' ↦ rw (e, e') c
    | inr e' ↦
        rw (e, e')
          (add_pair-IsCanonical (query_unescape (cut b'=' p).0) (query_unescape (cut b'=' p).1) v
            (unescape_from-OfBytes between (cut b'=' p).0 tt (cut-IsText b'=' p h).0)
            (unescape_from-OfBytes between (cut b'=' p).1 tt (cut-IsText b'=' p h).1) c)
  ]
]

parse_parts-IsCanonical :
    (ps : List Bytes) (v : Values) → All IsText ps → IsCanonical v → IsCanonical (parse_parts ps v)
unfolding parse_parts
parse_parts-IsCanonical [] v h c = c
parse_parts-IsCanonical (p ∷ ps) v (hp, h) c =
    parse_parts-IsCanonical ps (parse_part p v) h (parse_part-IsCanonical p v hp c)

-- Whatever a query holds, malformed parts included, its values have each key once and in order.
pub parse_query-IsCanonical : (q : Bytes) → IsText q → IsCanonical (parse_query q)
unfolding parse_query
parse_query-IsCanonical q h =
    parse_parts-IsCanonical (split b'&' q) [] (split-All IsByte b'&' q h) tt
