-- ===== src/Go/Query/Escape.antt =====
-- QueryUnescape reads back what QueryEscape writes.
use mathlib.Core.Option
use opendevops_codo_golang_s.Go.Query.{
  query_escape, query_unescape, unescape_from, between, escape_byte, upper_hex, is_hex, unreserved,
  unhex,
}
use opendevops_codo_golang_s.Common.{
  ℕ, All, Bytes, ◌<◌, ◌≢◌, ◌∷◌, ◌≡◌, All-append, arith, some, ◌++◌, [], ◌∙◌, refl, ◌/◌, ◌%◌,
  Bool-cases, ◌*◌, inl, true, ◌+◌, ap, inr, ◌==◌, false, sym, ==_iff,
}

abbrev pub IsByte : ℕ → Type 0
IsByte c = c < 256

upper_hex_digit : (n : ℕ) → n < 16 → (is_hex (upper_hex n) ≡ true) × (unhex (upper_hex n) ≡ n)
upper_hex_digit n h = (ground arith, ground arith)

unreserved_plain : (c : ℕ) → unreserved c ≡ true → (c == b'%' ≡ false) × (c == b'+' ≡ false)
unreserved_plain c h = (ground arith, ground arith)

unescape-escaped :
    (c : ℕ) (t : Bytes)
    → IsByte c
    → unescape_from between (b'%' ∷ upper_hex (c / 16) ∷ upper_hex (c % 16) ∷ t)
      ≡ Option.map (λ s. c ∷ s) (unescape_from between t)
unfolding unescape_from
unescape-escaped c t h =
    let (hex1, value1) = upper_hex_digit (c / 16) (omega arith) in
    let (hex2, value2) = upper_hex_digit (c % 16) (omega arith) in
    let whole : c / 16 * 16 + c % 16 ≡ c = omega arith in
    rw (hex1, hex2, value1, value2)
      (ap (λ n. Option.map (λ s. n ∷ s) (unescape_from between t)) whole)

unescape-escape_byte :
    (c : ℕ) (t : Bytes)
    → IsByte c
    → unescape_from between (escape_byte c ++ t) ≡ Option.map (λ s. c ∷ s) (unescape_from between t)
unfolding unescape_from
unescape-escape_byte c t h = elim (Bool-cases (unreserved c)) [
  | inl u ↦ let (no_percent, no_plus) = unreserved_plain c u in rw (u, no_percent, no_plus) refl
  | inr u ↦ elim (Bool-cases (c == b' ')) [
    | inl space ↦
        rw (u, space)
          (ap (λ n. Option.map (λ s. n ∷ s) (unescape_from between t))
            (sym ((==_iff c b' ').0 space)))
    | inr other ↦ rw (u, other) (unescape-escaped c t h)
  ]
]

unescape_from-query_escape :
    (s : Bytes) → All IsByte s → unescape_from between (query_escape s) ≡ some s
unfolding query_escape unescape_from
unescape_from-query_escape [] h = refl
unescape_from-query_escape (c ∷ s) (hc, hs) =
    unescape-escape_byte c (query_escape s) hc ∙ rw (unescape_from-query_escape s hs) refl

pub query_unescape-query_escape :
    (s : Bytes) → All IsByte s → query_unescape (query_escape s) ≡ some s
unfolding query_unescape
query_unescape-query_escape s h = unescape_from-query_escape s h

-- The bytes that stand for themselves in a query.
abbrev pub IsPlain : ℕ → Type 0
IsPlain c = (c ≢ b'&') × (c ≢ b'=') × (c ≢ b';')

upper_hex-IsPlain : (n : ℕ) → n < 16 → IsPlain (upper_hex n)
upper_hex-IsPlain n h = ground arith

escape_byte-IsPlain : (c : ℕ) → IsByte c → All IsPlain (escape_byte c)
escape_byte-IsPlain c h = ground (arith, upper_hex-IsPlain (c / 16), upper_hex-IsPlain (c % 16))

pub query_escape-IsPlain : (s : Bytes) → All IsByte s → All IsPlain (query_escape s)
unfolding query_escape
query_escape-IsPlain [] h = tt
query_escape-IsPlain (c ∷ s) (hc, hs) =
    All-append IsPlain (escape_byte c) (query_escape s) (escape_byte-IsPlain c hc)
      (query_escape-IsPlain s hs)
