-- ===== src/Go/Base64.antt =====
-- Package encoding/base64: the standard encoding with padding, and what such a text stands for.
use opendevops_codo_golang_s.Go.Query.Canonical.{IsText}
use opendevops_codo_golang_s.Go.Query.Escape.{IsByte}
use opendevops_codo_golang_s.Common.{
  ◌∷◌, Bytes, ℕ, if◌then◌else◌, ◌++◌, ◌/◌, ◌<◌, [], leb, ltb, ◌%◌, ◌==◌, ◌≡◌, ap, arith, false, ◌*◌,
  ◌+◌, ◌-◌, refl,
}

-- The alphabet.
abbrev digit : ℕ → ℕ
digit n =
    if ltb n 26
    then b'A' + n
    else if ltb n 52
    then b'a' + (n - 26)
    else if ltb n 62
    then b'0' + (n - 52)
    else if n == 62
    then b'+'
    else b'/'

-- StdEncoding.EncodeToString
unfoldable pub base64 : Bytes → Bytes
base64 [] = []
base64 (a ∷ []) = digit (a / 4) ∷ digit (a % 4 * 16) ∷ b'=' ∷ b'=' ∷ []
base64 (a ∷ b ∷ []) = digit (a / 4) ∷ digit (a % 4 * 16 + b / 16) ∷ digit (b % 16 * 4) ∷ b'=' ∷ []
base64 (a ∷ b ∷ c ∷ s) =
    digit (a / 4)
    ∷ digit (a % 4 * 16 + b / 16)
    ∷ digit (b % 16 * 4 + c / 64)
    ∷ digit (c % 64)
    ∷ base64 s

-- The number of a digit.
abbrev undigit : ℕ → ℕ
undigit c =
    if leb b'a' c
    then c - b'a' + 26
    else if leb b'A' c
    then c - b'A'
    else if leb b'0' c
    then c - b'0' + 52
    else if c == b'+'
    then 62
    else 63

-- The bytes of four digits.
abbrev group : ℕ → ℕ → ℕ → ℕ → Bytes
group w x y z =
    if y == b'='
    then (undigit w * 4 + undigit x / 16) ∷ []
    else if z == b'='
    then (undigit w * 4 + undigit x / 16) ∷ (undigit x % 16 * 16 + undigit y / 4) ∷ []
    else (undigit w * 4 + undigit x / 16)
      ∷ (undigit x % 16 * 16 + undigit y / 4)
      ∷ (undigit y % 4 * 64 + undigit z)
      ∷ []

-- What a text in base 64 stands for (RFC 4648).
unfoldable pub unbase64 : Bytes → Bytes
unbase64 (w ∷ x ∷ y ∷ z ∷ s) = group w x y z ++ unbase64 s
unbase64 _ = []

undigit-digit : (n : ℕ) → n < 64 → undigit (digit n) ≡ n
undigit-digit n h = ground arith

digit-ne : (n : ℕ) → n < 64 → (digit n == b'=') ≡ false
digit-ne n h = ground arith

-- The bytes come back from the numbers of their digits.
first_byte : (a n : ℕ) → n < 16 → a / 4 * 4 + (a % 4 * 16 + n) / 16 ≡ a
first_byte a n h = omega arith

second_byte :
    (a b n : ℕ) → IsByte b → n < 4 → (a % 4 * 16 + b / 16) % 16 * 16 + (b % 16 * 4 + n) / 4 ≡ b
second_byte a b n hb h = omega arith

third_byte : (b c : ℕ) → IsByte c → (b % 16 * 4 + c / 64) % 4 * 64 + c % 64 ≡ c
third_byte b c hc = omega arith

group-three :
    (a b c : ℕ)
    → IsByte a
    → IsByte b
    → IsByte c
    → group
        (digit (a / 4))
        (digit (a % 4 * 16 + b / 16))
        (digit (b % 16 * 4 + c / 64))
        (digit (c % 64))
      ≡ a ∷ b ∷ c ∷ []
group-three a b c ha hb hc =
    rw
      (
        digit-ne (b % 16 * 4 + c / 64) (omega arith),
        digit-ne (c % 64) (omega arith),
        undigit-digit (a / 4) (omega arith),
        undigit-digit (a % 4 * 16 + b / 16) (omega arith),
        undigit-digit (b % 16 * 4 + c / 64) (omega arith),
        undigit-digit (c % 64) (omega arith),
        first_byte a (b / 16) (omega arith),
        second_byte a b (c / 64) hb (omega arith),
        third_byte b c hc,
      )
      refl

group-two :
    (a b : ℕ)
    → IsByte a
    → IsByte b
    → group (digit (a / 4)) (digit (a % 4 * 16 + b / 16)) (digit (b % 16 * 4)) b'=' ≡ a ∷ b ∷ []
group-two a b ha hb =
    let second : (a % 4 * 16 + b / 16) % 16 * 16 + b % 16 * 4 / 4 ≡ b = omega arith in
    rw
      (
        digit-ne (b % 16 * 4) (omega arith),
        undigit-digit (a / 4) (omega arith),
        undigit-digit (a % 4 * 16 + b / 16) (omega arith),
        undigit-digit (b % 16 * 4) (omega arith),
        first_byte a (b / 16) (omega arith),
        second,
      )
      refl

group-one : (a : ℕ) → IsByte a → group (digit (a / 4)) (digit (a % 4 * 16)) b'=' b'=' ≡ a ∷ []
group-one a ha =
    let first : a / 4 * 4 + a % 4 * 16 / 16 ≡ a = omega arith in
    rw (undigit-digit (a / 4) (omega arith), undigit-digit (a % 4 * 16) (omega arith), first) refl

-- The text of bytes stands for those bytes.
pub unbase64-base64 : (s : Bytes) → IsText s → unbase64 (base64 s) ≡ s
unfolding unbase64 base64
unbase64-base64 [] h = refl
unbase64-base64 (a ∷ []) (ha, h) = rw (group-one a ha) refl
unbase64-base64 (a ∷ b ∷ []) (ha, (hb, h)) = rw (group-two a b ha hb) refl
unbase64-base64 (a ∷ b ∷ c ∷ s) (ha, (hb, (hc, h))) =
    rw (group-three a b c ha hb hc) (ap (λ t. a ∷ b ∷ c ∷ t) (unbase64-base64 s h))
