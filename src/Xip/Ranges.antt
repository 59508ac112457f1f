-- ===== src/Xip/Ranges.antt =====
-- IsIntranet on the texts of IPv4 addresses (xnet/xip/ip.go).
use opendevops_codo_golang_s.Go.Text
use opendevops_codo_golang_s.Go.Number.Decimal.{
  IsDigit, format_uint-IsDigit, same-format_uint, parse_int-format_uint, format_uint-injective,
}
use opendevops_codo_golang_s.Go.Number.{format_uint}
use opendevops_codo_golang_s.Go.Text.{split, Lacks, split-join}
use opendevops_codo_golang_s.Xip.{dotted, is_intranet}
use opendevops_codo_golang_s.Common.{
  ℕ, Bool, same, ◌<◌, utf8, ◌==◌, ◌≡◌, ◌&&◌, ◌||◌, ◌∷◌, [], leb, All-imp, ◌≢◌, arith, refl,
  same_iff, sym, ◌∙◌, ap,
}

-- The addresses that the comment on IsIntranet lists.
abbrev private : ℕ → ℕ → ℕ → ℕ → Bool
private a b c d =
    (a == 127 && b == 0 && c == 0 && d == 1)
    || a == 10
    || (a == 172 && leb 16 b && leb b 31)
    || (a == 192 && b == 168)

split-dotted :
    (a b c d : ℕ)
    → split b'.' (dotted a b c d)
      ≡ format_uint a ∷ format_uint b ∷ format_uint c ∷ format_uint d ∷ []
unfolding dotted
split-dotted a b c d =
    split-join b'.' (format_uint a) (format_uint b ∷ format_uint c ∷ format_uint d ∷ [])
      (format_uint-Lacks a) (format_uint-Lacks b, (format_uint-Lacks c, (format_uint-Lacks d, tt)))
  where
    format_uint-Lacks : (n : ℕ) → Lacks b'.' (format_uint n)
    format_uint-Lacks n =
        All-imp IsDigit (λ c. c ≢ b'.') (λ c h. omega arith) (format_uint n) (format_uint-IsDigit n)

dotted-injective :
    (a b c d p q r s : ℕ) → dotted a b c d ≡ dotted p q r s → (a ≡ p) × (b ≡ q) × (c ≡ r) × (d ≡ s)
dotted-injective a b c d p q r s e =
    let parts = sym (split-dotted a b c d) ∙ ap (split b'.') e ∙ split-dotted p q r s in
    (
      format_uint-injective a p (cc),
      format_uint-injective b q (cc),
      format_uint-injective c r (cc),
      format_uint-injective d s (cc),
    )

same-local :
    (a b c d : ℕ)
    → same (dotted a b c d) (dotted 127 0 0 1) ≡ (a == 127 && b == 0 && c == 0 && d == 1)
same-local a b c d =
    ground (arith, same_iff (dotted a b c d) (dotted 127 0 0 1), dotted-injective a b c d 127 0 0 1)

local_text : dotted 127 0 0 1 ≡ utf8 "127.0.0.1"
unfolding dotted Text.join format_uint
local_text = refl

number_texts :
    (format_uint 10 ≡ utf8 "10")
    × (format_uint 192 ≡ utf8 "192")
    × (format_uint 168 ≡ utf8 "168")
    × (format_uint 172 ≡ utf8 "172")
unfolding format_uint
number_texts = (refl, refl, refl, refl)

-- For every IPv4 address, IsIntranet holds of its text exactly for 127.0.0.1 and the ranges
-- 10.0.0.0/8, 172.16.0.0/12 and 192.168.0.0/16.
pub is_intranet-dotted :
    (a b c d : ℕ)
    → a < 256
    → b < 256
    → c < 256
    → d < 256
    → is_intranet (dotted a b c d) ≡ private a b c d
unfolding is_intranet
is_intranet-dotted a b c d ha hb hc hd =
    let (t10, t192, t168, t172) = number_texts in
    rw
      (
        ← local_text,
        same-local a b c d,
        split-dotted a b c d,
        ← t10,
        ← t192,
        ← t168,
        ← t172,
        same-format_uint a 10,
        same-format_uint a 192,
        same-format_uint a 172,
        same-format_uint b 168,
        parse_int-format_uint b (omega arith),
      )
      (ground arith)
