-- ===== src/Examples/Http.antt =====
-- Tests of the models of cerr, transport and xnet/xip.
use opendevops_codo_golang_s.Go.Dict.{lookup}
use opendevops_codo_golang_s.Transport.Cgrpc.{from_status, from_status-as_grpc_error}
use opendevops_codo_golang_s.Xip.Ranges.{is_intranet-dotted}
use opendevops_codo_golang_s.Transport.Chttp.Laws.{from_error-error_encoder}
use mathlib.Core.Option
use opendevops_codo_golang_s.Go.Text.{split, join, has_prefix}
use opendevops_codo_golang_s.Go.Number.{itoa, pos, format_uint, parse_int, negsuc}
use opendevops_codo_golang_s.Xip.{
  get_intranet_ip_array, is_intranet, Interface, dotted, intranet_of, ip_net, v4,
}
use opendevops_codo_golang_s.Cerr.Code.{http_status_code_map, trans_map}
use opendevops_codo_golang_s.Transport.Chttp.Decode.{request_body_decoder, Request}
use opendevops_codo_golang_s.Common.{
  Bytes, List, ℕ, ◌≡◌, Option, [], inl, some, true, utf8, refl, arith, ◌∷◌, false,
}
use opendevops_codo_golang_s.Transport.Chttp.{
  Encoders, Reply, error_encoder, from_error, response_encoder, Dynamic, convert_validation,
}
use opendevops_codo_golang_s.Cerr.Errors.{
  CodeError, as_code_error, from, new, wrap, error_text, plain, GoError, as_error, as_grpc_error,
}
use opendevops_codo_golang_s.Cerr.Laws.{code_string-register_code}
use opendevops_codo_golang_s.Cerr.Registry.{
  code_string, initial, register_code, as_http_code, apply_all, default_register_code_options,
}

code_string-register_code_example :
    ((register_code initial (pos 1000) (utf8 "busy") []).1 ≡ true)
    × (code_string (register_code initial (pos 1000) (utf8 "busy") []).0 (pos 1000) ≡ utf8 "busy")
    × (as_http_code (register_code initial (pos 1000) (utf8 "busy") []).0 (pos 1000)
        ≡ (apply_all [] default_register_code_options).http_code)
unfolding trans_map lookup apply_all
code_string-register_code_example =
    code_string-register_code initial (pos 1000) (pos 1000) (utf8 "busy") []

abbrev not_found : CodeError
not_found = record { code = pos 115; src = plain (utf8 "no row"); err_msg = utf8 "no row" }

from_status-as_grpc_error_example :
    Option.map (λ (y : CodeError). y.code) (from_status (λ s. s.message) (as_grpc_error not_found))
    ≡ some (pos 115)
from_status-as_grpc_error_example =
    from_status-as_grpc_error (λ s. s.message) not_found (omega arith)

wrapped_found : as_code_error (wrap (utf8 "get: no row") (as_error not_found)) ≡ some not_found
unfolding as_code_error
wrapped_found = refl

from_error-error_encoder_example :
    from_error
      (error_encoder initial (pos 5) [] (wrap (utf8 "get: no row") (as_error not_found))).body
    ≡ some (new (pos 115) (plain (error_text (wrap (utf8 "get: no row") (as_error not_found)))))
from_error-error_encoder_example =
    from_error-error_encoder initial (pos 5) [] (wrap (utf8 "get: no row") (as_error not_found))
      not_found wrapped_found refl

-- The status line and the message of that reply.
error_status : (error_encoder initial (pos 5) [] (as_error not_found)).status ≡ pos 404
unfolding error_encoder convert_validation from as_code_error as_http_code http_status_code_map
    lookup
error_status = refl

abbrev text_encoders : Encoders Bytes
text_encoders = record {
  kind = λ v. Dynamic.other;
  custom = λ v. inl v;
  proto = λ v. inl v;
  json = λ v. inl v;
}

abbrev ok_reply : Reply
ok_reply = record {
  status = pos 200;
  body = record {
    code = pos 0;
    msg = utf8 "success";
    reason = utf8 "success";
    timestamp = utf8 "5";
    result = some (utf8 "1");
    trace_id = [];
  };
}

encoded : response_encoder text_encoders (pos 5) [] (utf8 "1") ≡ inl ok_reply
unfolding response_encoder itoa
encoded = refl

abbrev request : Request
request = record { content_length = negsuc 0; body = inl (utf8 "{}") }

abbrev refuse : Bytes → ℕ → ℕ × Option GoError
refuse bs n = (n, some (plain (utf8 "unexpected end")))

refused :
    (request_body_decoder refuse request 7).2
    ≡ some (record {
      code = pos 101;
      src = plain (utf8 "unexpected end");
      err_msg = utf8 "unexpected end";
    })
unfolding request_body_decoder new error_text
refused = refl

is_intranet-dotted_example : is_intranet (dotted 172 20 0 9) ≡ true
is_intranet-dotted_example =
    is_intranet-dotted 172 20 0 9 (omega arith) (omega arith) (omega arith) (omega arith)

abbrev interfaces : List Interface
interfaces =
    record {
      up = true;
      loopback = true;
      name = utf8 "lo";
      addrs = some (ip_net (some (v4 127 0 0 1)) ∷ []);
    }
    ∷ record {
      up = true;
      loopback = false;
      name = utf8 "eth0";
      addrs = some (ip_net (some (v4 10 0 0 7)) ∷ []);
    }
    ∷ []

intranet_found : get_intranet_ip_array (some interfaces) ≡ (utf8 "10.0.0.7" ∷ [], true)
unfolding get_intranet_ip_array intranet_of is_intranet split dotted join format_uint has_prefix
    parse_int
intranet_found = refl
