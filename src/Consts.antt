-- ===== src/Consts.antt =====
-- consts/consts.go: the type ErrorCode. The other constants of the package are names without operations.
use opendevops_codo_golang_s.Common.{◌∷◌, Bytes, List, [], ◌≡◌, ap, sym, ◌∙◌}
use opendevops_codo_golang_s.Go.Number.{ℤ, pos, itoa, InRange, Parsed, parse_int}
use opendevops_codo_golang_s.Go.Number.Decimal.{parse_int-itoa}

abbrev ErrorCode : Type 0
ErrorCode = ℤ

-- The codes, in the order of the file.
abbrev error_codes : List ErrorCode
error_codes =
    pos 404
    ∷ pos 400
    ∷ pos 401
    ∷ pos 403
    ∷ pos 405
    ∷ pos 406
    ∷ pos 409
    ∷ pos 410
    ∷ pos 412
    ∷ pos 413
    ∷ pos 415
    ∷ pos 500
    ∷ pos 503
    ∷ pos 501
    ∷ pos 504
    ∷ pos 1001
    ∷ pos 1002
    ∷ []

-- ErrorCode.String
unfoldable error_code_string : ErrorCode → Bytes
error_code_string e = itoa e

-- Different codes have different texts.
error_code_string-injective :
    (e f : ErrorCode)
    → InRange 64 e
    → InRange 64 f
    → error_code_string e ≡ error_code_string f
    → e ≡ f
unfolding error_code_string
error_code_string-injective e f he hf h =
    ap (λ (r : Parsed ℤ). r.value)
      (sym (parse_int-itoa e he) ∙ ap (parse_int 64) h ∙ parse_int-itoa f hf)
