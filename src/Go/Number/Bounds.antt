-- ===== src/Go/Number/Bounds.antt =====
-- The values that strconv.ParseUint and ParseInt return are in range, on the error paths too.
use native.Mathlib.Nat.{one-le-pow}
use opendevops_codo_golang_s.Common.{
  ℕ, Bool, Bytes, ◌<◌, ◌^◌, ◌≤◌, arith, ◌∷◌, [], ◌*◌, ◌-◌, ◌+◌, Bool-cases, ◌==◌, inl, true, inr,
  false,
}
use opendevops_codo_golang_s.Go.Number.{scan, signed, parse_uint, parse_int, InRange, Parsed}

scan-le : (limit n : ℕ) (s : Bytes) → n ≤ limit → (scan limit n s).value ≤ limit
unfolding scan
scan-le limit n [] h = h
scan-le limit n (c ∷ s) h = ground (arith, scan-le limit (n * 10 + (c - b'0')) s)

pow-pos : (bits : ℕ) → 0 < 2 ^ bits
pow-pos bits = one-le-pow bits 2 (omega arith)

pub parse_uint-lt : (bits : ℕ) (s : Bytes) → (parse_uint bits s).value < 2 ^ bits
unfolding parse_uint
parse_uint-lt bits [] = pow-pos bits
parse_uint-lt bits (c ∷ s) =
    omega (arith, scan-le (2 ^ bits - 1) 0 (c ∷ s) (omega arith), pow-pos bits)

signed-InRange : (bits : ℕ) (neg : Bool) (r : Parsed ℕ) → InRange bits (signed bits neg r).value
unfolding signed
signed-InRange bits neg r = ground (arith, pow-pos (bits - 1))

pub parse_int-InRange : (bits : ℕ) (s : Bytes) → InRange bits (parse_int bits s).value
unfolding parse_int
parse_int-InRange bits [] = pow-pos (bits - 1)
parse_int-InRange bits (c ∷ s) = elim (Bool-cases (c == b'-')) [
  | inl minus ↦ rw minus (signed-InRange bits true (parse_uint bits s))
  | inr other ↦ elim (Bool-cases (c == b'+')) [
    | inl plus ↦ rw (other, plus) (signed-InRange bits false (parse_uint bits s))
    | inr digit ↦ rw (other, digit) (signed-InRange bits false (parse_uint bits (c ∷ s)))
  ]
]
