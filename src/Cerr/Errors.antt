-- ===== src/Cerr/Errors.antt =====
-- CodeError of cerr/cerr.go, and the Go errors that it wraps and is wrapped in.
use opendevops_codo_golang_s.Go.Number.{to_unsigned, itoa}
use opendevops_codo_golang_s.Cerr.Code.{ErrCode, e_unknown_code}
use opendevops_codo_golang_s.Common.{Bytes, Option, some, ℕ, none, utf8, ◌++◌}

-- A library's error, an error with a method ErrorName, fmt.Errorf with %w (its message and what it
-- wraps), and a *CodeError. The source of a CodeError is never nil: New panics on nil.
pub data GoError : Type 0 where
  plain : Bytes → GoError
  named : Bytes → Bytes → GoError
  wrap : Bytes → GoError → GoError
  code_error : ErrCode → GoError → Bytes → GoError

pub record CodeError : Type 0 where
  pub code : ErrCode
  pub src : GoError
  pub err_msg : Bytes

-- err.Error(); on a CodeError this is CodeError.Error.
unfoldable pub error_text : GoError → Bytes
error_text (plain msg) = msg
error_text (named name msg) = msg
error_text (wrap msg e) = msg
error_text (code_error code src msg) =
    utf8 "err_code: " ++ (itoa code ++ (utf8 ", err_msg: " ++ msg))

abbrev pub as_error : CodeError → GoError
as_error x = code_error x.code x.src x.err_msg

-- errors.Unwrap, by the Unwrap methods.
unfoldable unwrap : GoError → Option GoError
unwrap (plain msg) = none
unwrap (named name msg) = none
unwrap (wrap msg e) = some e
unwrap (code_error code src msg) = some src

-- errors.As(err, &e) for a *CodeError: the first along the chain of Unwrap.
unfoldable pub as_code_error : GoError → Option CodeError
as_code_error (plain msg) = none
as_code_error (named name msg) = none
as_code_error (wrap msg e) = as_code_error e
as_code_error (code_error code src msg) = some (record { code = code; src = src; err_msg = msg })

-- New(code, src)
unfoldable pub new : ErrCode → GoError → CodeError
new code src = record { code = code; src = src; err_msg = error_text src }

-- From(err)
unfoldable pub from : GoError → CodeError
unfolding as_code_error new
from e = elim (as_code_error e) [ some x ↦ x | none ↦ new e_unknown_code e ]

-- status.Status of grpc: its code is a uint32.
pub record Status : Type 0 where
  pub code : ℕ
  pub message : Bytes

-- CodeError.AsGrpcError
unfoldable pub as_grpc_error : CodeError → Status
as_grpc_error x = record { code = to_unsigned 32 x.code; message = x.err_msg }
