-- ===== src/Go/Number.antt =====
-- Package strconv in base ten: Itoa, ParseUint, ParseInt, Atoi, ParseBool; and the conversions
-- between machine integers. A failed parse has a value beside its error, as in Go.
pub mod Decimal
pub mod Bounds
use opendevops_codo_golang_s.Common.{
  ℕ, zero, suc, ◌+◌, ◌-◌, ◌*◌, ◌/◌, ◌%◌, ◌^◌, ◌≤◌, ◌<◌, ◌≡◌, ◌≢◌, refl, Bool, true, false, ◌||◌,
  List, [], ◌∷◌, ◌++◌, Option, none, some, arith, ltb, leb, ◌==◌, if◌then◌else◌, Bytes, utf8, same,
}

-- `negsuc n` is -(n + 1).
pub data ℤ : Type 0 where
  pos : ℕ → ℤ
  negsuc : ℕ → ℤ

pub data NumError : Type 0 where
  syntax range : NumError

pub record Parsed (A : Type 0) : Type 0 where
  pub value : A
  pub error : Option NumError

-- The digits of n; a numeral of n has at most n + 1 digits.
digits : ℕ → ℕ → Bytes
digits zero n = []
digits (suc f) n =
    let more = digits f (n / 10) ++ (b'0' + n % 10) ∷ [] in
    if ltb n 10 then (b'0' + n) ∷ [] else more

unfoldable pub format_uint : ℕ → Bytes
unfolding digits
format_uint n = digits (suc n) n

-- strconv.Itoa, and the verb %d
unfoldable pub itoa : ℤ → Bytes
unfolding format_uint
itoa (pos n) = format_uint n
itoa (negsuc n) = b'-' ∷ format_uint (suc n)

-- The loop of ParseUint: `limit` is the greatest value of the width.
scan : ℕ → ℕ → Bytes → Parsed ℕ
scan limit n [] = record { value = n; error = none }
scan limit n (c ∷ s) =
    let m = n * 10 + (c - b'0') in
    let rest = scan limit m s in
    if ltb c b'0' || ltb b'9' c
    then record { value = 0; error = some syntax }
    else if ltb limit m
    then record { value = limit; error = some range }
    else rest

-- strconv.ParseUint(s, 10, bits)
unfoldable pub parse_uint : ℕ → Bytes → Parsed ℕ
unfolding scan
parse_uint bits [] = record { value = 0; error = some syntax }
parse_uint bits (c ∷ s) = scan (2 ^ bits - 1) 0 (c ∷ s)

-- The range test of ParseInt on the magnitude.
signed : ℕ → Bool → Parsed ℕ → Parsed ℤ
signed bits neg r = elim r.error [
  | some syntax ↦ record { value = pos 0; error = some syntax }
  | _ ↦
      let cutoff = 2 ^ (bits - 1) in
      if neg
      then (if ltb cutoff r.value
          then record { value = negsuc (cutoff - 1); error = some range }
          else record {
            value = if r.value == 0 then pos 0 else negsuc (r.value - 1);
            error = none;
          })
      else (if leb cutoff r.value
          then record { value = pos (cutoff - 1); error = some range }
          else record { value = pos r.value; error = none })
]

-- strconv.ParseInt(s, 10, bits)
unfoldable pub parse_int : ℕ → Bytes → Parsed ℤ
unfolding signed parse_uint
parse_int bits [] = record { value = pos 0; error = some syntax }
parse_int bits (c ∷ s) =
    if c == b'-'
    then signed bits true (parse_uint bits s)
    else if c == b'+'
    then signed bits false (parse_uint bits s)
    else signed bits false (parse_uint bits (c ∷ s))

-- strconv.Atoi on a 64-bit machine
unfoldable pub atoi : Bytes → Parsed ℤ
unfolding parse_int
atoi s = parse_int 64 s

-- strconv.ParseBool
unfoldable pub parse_bool : Bytes → Option Bool
parse_bool s =
    if same s (utf8 "1")
      || same s (utf8 "t")
      || same s (utf8 "T")
      || same s (utf8 "TRUE")
      || same s (utf8 "true")
      || same s (utf8 "True")
    then some true
    else if same s (utf8 "0")
        || same s (utf8 "f")
        || same s (utf8 "F")
        || same s (utf8 "FALSE")
        || same s (utf8 "false")
        || same s (utf8 "False")
    then some false
    else none

-- The conversion of an integer to an unsigned type of the width.
unfoldable pub to_unsigned : ℕ → ℤ → ℕ
to_unsigned bits (pos n) = n % 2 ^ bits
to_unsigned bits (negsuc n) = 2 ^ bits - 1 - n % 2 ^ bits

-- The integer that a word of the width stands for, in two's complement.
unfoldable pub to_signed : ℕ → ℕ → ℤ
to_signed bits w =
    let v = w % 2 ^ bits in if ltb v (2 ^ (bits - 1)) then pos v else negsuc (2 ^ bits - 1 - v)

-- The values of a signed type of the width.
abbrev pub InRange : ℕ → ℤ → Type 0
InRange bits (pos n) = n < 2 ^ (bits - 1)
InRange bits (negsuc n) = n < 2 ^ (bits - 1)

parse_int_clamps : parse_int 8 (utf8 "-300") ≡ record { value = negsuc 127; error = some range }
unfolding parse_int
parse_int_clamps = refl

itoa_negative : itoa (negsuc 119) ≡ utf8 "-120"
unfolding itoa
itoa_negative = refl
