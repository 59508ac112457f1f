-- ===== src/Go/Number/Decimal.antt =====
-- Decimal texts are read back: strconv.ParseUint, ParseInt and Atoi after Itoa.
use opendevops_codo_golang_s.Common.{
  ℕ, zero, suc, ◌+◌, ◌-◌, ◌/◌, ◌%◌, ◌^◌, ◌≤◌, ◌<◌, ◌≡◌, refl, sym, ap, ◌∙◌, [], ◌∷◌, ◌++◌, none,
  arith, ltb, Bytes, All, All-append, append_assoc, Bool-cases, append-nil, inl, inr, same, ◌==◌,
  same_iff,
}
use opendevops_codo_golang_s.Go.Number.{
  ℤ, pos, negsuc, Parsed, digits, format_uint, itoa, scan, parse_uint, parse_int, InRange,
}

abbrev pub IsDigit : ℕ → Type 0
IsDigit c = (b'0' ≤ c) × (c ≤ b'9')

digits-IsDigit : (f n : ℕ) → All IsDigit (digits f n)
unfolding digits
digits-IsDigit zero n = tt
digits-IsDigit (suc f) n = ground (
  arith,
  digits-IsDigit f (n / 10),
  All-append IsDigit (digits f (n / 10)) ((b'0' + n % 10) ∷ []),
)

pub format_uint-IsDigit : (n : ℕ) → All IsDigit (format_uint n)
unfolding format_uint
format_uint-IsDigit n = digits-IsDigit (suc n) n

last_digit :
    (limit n : ℕ) (rest : Bytes)
    → n ≤ limit
    → scan limit (n / 10) ((b'0' + n % 10) ∷ rest) ≡ scan limit n rest
unfolding scan
last_digit limit n rest h = ground arith

first_digit :
    (limit n : ℕ) (rest : Bytes)
    → n ≤ limit
    → n < 10
    → scan limit 0 ((b'0' + n) ∷ rest) ≡ scan limit n rest
unfolding scan
first_digit limit n rest h lt = ground arith

scan-digits :
    (limit f n : ℕ) (rest : Bytes)
    → n < f
    → n ≤ limit
    → scan limit 0 (digits f n ++ rest) ≡ scan limit n rest
unfolding digits
scan-digits limit zero n rest h fits = absurd (omega arith)
scan-digits limit (suc f) n rest h fits = ground (
  arith,
  append_assoc (digits f (n / 10)) ((b'0' + n % 10) ∷ []) rest,
  scan-digits limit f (n / 10) ((b'0' + n % 10) ∷ rest),
  last_digit limit n rest fits,
  first_digit limit n rest fits,
)

digits-eq-cons : (f n : ℕ) → n < f → (c : ℕ) × (s : Bytes) × (digits f n ≡ c ∷ s) × IsDigit c
unfolding digits
digits-eq-cons zero n h = absurd (omega arith)
digits-eq-cons (suc f) n h = elim (Bool-cases (ltb n 10)) [
  | inl small ↦ (b'0' + n, [], rw small, ground arith)
  | inr large ↦
      let (c, s, e, d) = digits-eq-cons f (n / 10) (ground arith) in
      (c, s ++ (b'0' + n % 10) ∷ [], rw (large, e), d)
]

pub format_uint-eq-cons : (n : ℕ) → (c : ℕ) × (s : Bytes) × (format_uint n ≡ c ∷ s)
unfolding format_uint
format_uint-eq-cons n = let (c, s, e, d) = digits-eq-cons (suc n) n (omega arith) in (c, s, e)

scan-format_uint :
    (limit n : ℕ) → n ≤ limit → scan limit 0 (format_uint n) ≡ record { value = n; error = none }
unfolding format_uint scan
scan-format_uint limit n h =
    rw (sym (append-nil (digits (suc n) n))) (scan-digits limit (suc n) n [] (omega arith) h)

parse_uint-cons : (bits c : ℕ) (s : Bytes) → parse_uint bits (c ∷ s) ≡ scan (2 ^ bits - 1) 0 (c ∷ s)
unfolding parse_uint
parse_uint-cons bits c s = refl

-- Every number of the width is read back from its digits.
pub parse_uint-format_uint :
    (bits n : ℕ)
    → n < 2 ^ bits
    → parse_uint bits (format_uint n) ≡ record { value = n; error = none }
unfolding format_uint
parse_uint-format_uint bits n h =
    let (c, s, e, d) = digits-eq-cons (suc n) n (omega arith) in
    rw (e, parse_uint-cons, ← e) (scan-format_uint (2 ^ bits - 1) n (omega arith))

pub parse_int-format_uint :
    (n : ℕ) → n < 2 ^ 63 → parse_int 64 (format_uint n) ≡ record { value = pos n; error = none }
unfolding parse_int format_uint
parse_int-format_uint n h =
    let (c, s, e, d) = digits-eq-cons (suc n) n (omega arith) in
    ground (arith, e, parse_uint-format_uint 64 n)

parse_int-minus :
    (n : ℕ)
    → n < 2 ^ 63
    → parse_int 64 (b'-' ∷ format_uint (suc n)) ≡ record { value = negsuc n; error = none }
unfolding parse_int
parse_int-minus n h = ground (arith, parse_uint-format_uint 64 (suc n))

-- Every int64 is read back from its print.
pub parse_int-itoa :
    (z : ℤ) → InRange 64 z → parse_int 64 (itoa z) ≡ record { value = z; error = none }
unfolding itoa
parse_int-itoa (pos n) h = parse_int-format_uint n h
parse_int-itoa (negsuc n) h = parse_int-minus n h

pub format_uint-injective : (a b : ℕ) → format_uint a ≡ format_uint b → a ≡ b
format_uint-injective a b e =
    ap (λ (r : Parsed ℕ). r.value)
      (sym (scan-format_uint (a + b) a (omega arith))
        ∙ ap (scan (a + b) 0) e
        ∙ scan-format_uint (a + b) b (omega arith))

pub same-format_uint : (a b : ℕ) → same (format_uint a) (format_uint b) ≡ (a == b)
same-format_uint a b =
    ground (arith, same_iff (format_uint a) (format_uint b), format_uint-injective a b)
