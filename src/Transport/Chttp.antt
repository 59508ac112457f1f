-- ===== src/Transport/Chttp.antt =====
-- transport/chttp/http.go. The clock, the trace id that the propagator reads from the request, and the
-- JSON and protobuf libraries are parameters.
pub mod Decode
pub mod Json
pub mod Laws
use opendevops_codo_golang_s.Go.Dict.{int_beq}
use opendevops_codo_golang_s.Go.Text.{has_suffix}
use opendevops_codo_golang_s.Cerr.Registry.{Registry, as_http_code, code_string}
use opendevops_codo_golang_s.Cerr.Errors.{
  new, GoError, CodeError, from, named, as_error, error_text, plain,
}
use opendevops_codo_golang_s.Common.{Bytes, Option, ◌⊎◌, inr, if◌then◌else◌, inl, utf8, none, some}
use opendevops_codo_golang_s.Go.Number.{ℤ, pos, itoa}
use opendevops_codo_golang_s.Cerr.Code.{ErrCode, s_code, e_invalid_param_code}

pub record Resp : Type 0 where
  pub code : ErrCode
  pub msg : Bytes
  pub reason : Bytes
  pub timestamp : Bytes
  pub result : Option Bytes
  pub trace_id : Bytes

-- What a handler writes: the status line and the body that is encoded.
pub record Reply : Type 0 where
  pub status : ℤ
  pub body : Resp

-- The dynamic types that marshalJSON and unmarshalJSON tell apart.
pub data Dynamic : Type 0 where
  json_custom proto_message other : Dynamic

-- json.Marshaler, protojson and json.Marshal: the bytes or an error.
pub record Encoders (V : Type 0) : Type 0 where
  pub kind : V → Dynamic
  pub custom : V → Bytes ⊎ GoError
  pub proto : V → Bytes ⊎ GoError
  pub json : V → Bytes ⊎ GoError

unfoldable marshal_json : {V : Type 0} → Encoders V → V → Bytes ⊎ GoError
marshal_json lib v = elim (lib.kind v) [
  | json_custom ↦ lib.custom v
  | proto_message ↦ lib.proto v
  | other ↦ lib.json v
]

-- ResponseEncoder: the reply, or the error of marshalling with nothing written.
unfoldable pub response_encoder :
    {V : Type 0} → Encoders V → (millis : ℤ) → (trace_id : Bytes) → V → Reply ⊎ GoError
unfolding marshal_json
response_encoder lib millis trace_id v = elim (marshal_json lib v) [
  | inr e ↦ inr e
  | inl bs ↦ inl (record {
    status = pos 200;
    body = record {
      code = s_code;
      msg = utf8 "success";
      reason = utf8 "success";
      timestamp = itoa millis;
      result = some bs;
      trace_id = trace_id;
    };
  })
]

-- A validation error is given the code for invalid parameters.
unfoldable pub convert_validation : GoError → GoError
unfolding new has_suffix
convert_validation (named name msg) =
    if has_suffix name (utf8 "ValidationError")
    then as_error (new e_invalid_param_code (named name msg))
    else named name msg
convert_validation e = e

-- ErrorEncoder, up to the JSON encoder of the body, which replaces what is not UTF-8 in a text.
unfoldable pub error_encoder : Registry → (millis : ℤ) → (trace_id : Bytes) → GoError → Reply
error_encoder r millis trace_id err =
    let e = convert_validation err in
    let x = from e in
    record {
      status = as_http_code r x.code;
      body = record {
        code = x.code;
        msg = code_string r x.code;
        reason = error_text e;
        timestamp = itoa millis;
        result = none;
        trace_id = trace_id;
      };
    }

-- FromError
unfoldable pub from_error : Resp → Option CodeError
unfolding new
from_error resp =
    if int_beq resp.code s_code then none else some (new resp.code (plain resp.reason))
