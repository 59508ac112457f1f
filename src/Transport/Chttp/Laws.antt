-- ===== src/Transport/Chttp/Laws.antt =====
-- What a client reads from the replies of transport/chttp/http.go.
use opendevops_codo_golang_s.Cerr.Code.{s_code}
use opendevops_codo_golang_s.Go.Dict.{int_beq}
use opendevops_codo_golang_s.Common.{Bytes, ◌≡◌, some, false, arith}
use opendevops_codo_golang_s.Cerr.Registry.{Registry}
use opendevops_codo_golang_s.Go.Number.{ℤ}
use opendevops_codo_golang_s.Cerr.Errors.{
  from, GoError, CodeError, as_code_error, new, plain, error_text, named, wrap, code_error,
}
use opendevops_codo_golang_s.Transport.Chttp.{error_encoder, from_error, convert_validation}

-- Where the error that the server encodes is or wraps a CodeError whose code is not the one for
-- success, a client reads that code, with the server's text of the error.
pub from_error-error_encoder :
    (r : Registry) (millis : ℤ) (trace_id : Bytes) (err : GoError) (x : CodeError)
    → as_code_error err ≡ some x
    → int_beq x.code s_code ≡ false
    → from_error (error_encoder r millis trace_id err).body
      ≡ some (new x.code (plain (error_text err)))
unfolding error_encoder from_error from convert_validation
from_error-error_encoder r millis trace_id (plain msg) x h ne = cc
from_error-error_encoder r millis trace_id (named name msg) x h ne = cc
from_error-error_encoder r millis trace_id (wrap msg e) x h ne = ground (arith, h, ne)
from_error-error_encoder r millis trace_id (code_error code src msg) x h ne = ground (arith, h, ne)
