-- ===== src/Cerr/Registry.antt =====
-- The registry of cerr/cerr.go: the two maps under the mutex, RegisterCode and what reads them.
use opendevops_codo_golang_s.Go.Dict.{lookup, insert, int_eq}
use opendevops_codo_golang_s.Go.Number.{pos, ℤ}
use opendevops_codo_golang_s.Cerr.Code.{ErrCode, trans_map, http_status_code_map}
use opendevops_codo_golang_s.Common.{List, Bytes, ◌∷◌, Bool, [], some, false, utf8, true, none}

pub record Registry : Type 0 where
  pub trans : List (ErrCode × Bytes)
  pub http : List (ErrCode × ℤ)

abbrev pub initial : Registry
initial = record { trans = trans_map; http = http_status_code_map }

pub record RegisterCodeOptions : Type 0 where
  pub http_code : ℤ

unfoldable pub default_register_code_options : RegisterCodeOptions
default_register_code_options = record { http_code = pos 500 }

unfoldable with_http_code : ℤ → RegisterCodeOptions → RegisterCodeOptions
with_http_code code o = record o { http_code = code }

unfoldable pub apply_all :
    List (RegisterCodeOptions → RegisterCodeOptions) → RegisterCodeOptions → RegisterCodeOptions
apply_all [] o = o
apply_all (f ∷ fs) o = apply_all fs (f o)

-- RegisterCode: `true` stands for nil and `false` for the error that the code already exists.
unfoldable pub register_code :
    Registry → ErrCode → Bytes → List (RegisterCodeOptions → RegisterCodeOptions) → Registry × Bool
register_code r code msg opts =
    let options = apply_all opts default_register_code_options in
    elim (lookup code r.trans) [
      | some _ ↦ (r, false)
      | none ↦ (
        record { trans = insert code msg r.trans; http = insert code options.http_code r.http },
        true,
      )
    ]

-- ErrCode.String
unfoldable pub code_string : Registry → ErrCode → Bytes
code_string r code = elim (lookup code r.trans) [ some v ↦ v | none ↦ utf8 "未知错误" ]

-- ErrCode.AsHTTPCode
unfoldable pub as_http_code : Registry → ErrCode → ℤ
as_http_code r code = elim (lookup code r.http) [ some v ↦ v | none ↦ pos 500 ]
