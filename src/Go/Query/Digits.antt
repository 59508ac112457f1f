-- ===== src/Go/Query/Digits.antt =====
-- The print of a number as a text of a query.
use opendevops_codo_golang_s.Go.Number.{itoa, format_uint, ℤ, pos, negsuc}
use opendevops_codo_golang_s.Common.{ℕ, All-imp, arith}
use opendevops_codo_golang_s.Go.Number.Decimal.{IsDigit, format_uint-IsDigit}
use opendevops_codo_golang_s.Go.Query.Escape.{IsByte}
use opendevops_codo_golang_s.Go.Query.Canonical.{IsText}

pub format_uint-IsText : (n : ℕ) → IsText (format_uint n)
format_uint-IsText n =
    All-imp IsDigit IsByte (λ c d. omega arith) (format_uint n) (format_uint-IsDigit n)

pub itoa-IsText : (z : ℤ) → IsText (itoa z)
unfolding itoa
itoa-IsText (pos n) = format_uint-IsText n
itoa-IsText (negsuc n) = (omega arith, format_uint-IsText (ℕ.suc n))
