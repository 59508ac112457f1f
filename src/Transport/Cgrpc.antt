-- ===== src/Transport/Cgrpc.antt =====
-- transport/cgrpc/grpc.go: a CodeError read from a gRPC status.
use mathlib.Core.Option
use opendevops_codo_golang_s.Go.Dict.{int_beq}
use opendevops_codo_golang_s.Cerr.Code.{ErrCode, s_code}
use opendevops_codo_golang_s.Go.Number.{to_signed, to_unsigned, InRange, pos, negsuc}
use opendevops_codo_golang_s.Common.{Bytes, Option, if◌then◌else◌, ◌≡◌, arith, none, some}
use opendevops_codo_golang_s.Cerr.Errors.{Status, as_grpc_error, new, CodeError, plain}

-- `status_text` is the message of status.Err().
module _ (status_text : Status → Bytes) where
  unfoldable pub from_status : Status → Option CodeError
  unfolding new
  from_status s =
      if int_beq (to_signed 32 s.code) s_code
      then none
      else some (new (to_signed 32 s.code) (plain (status_text s)))

  code_through : (code : ErrCode) → InRange 32 code → to_signed 32 (to_unsigned 32 code) ≡ code
  unfolding to_signed to_unsigned
  code_through (pos n) h = ground arith
  code_through (negsuc n) h = ground arith

  -- A CodeError sent as a gRPC status is read back with its code; the success code is read as no
  -- error. Every int32 code survives the way through uint32.
  pub from_status-as_grpc_error :
      (x : CodeError)
      → InRange 32 x.code
      → Option.map (λ (y : CodeError). y.code) (from_status (as_grpc_error x))
        ≡ (if int_beq x.code s_code then none else some x.code)
  unfolding from_status as_grpc_error
  from_status-as_grpc_error x h = rw (code_through x.code h) (ground arith)
