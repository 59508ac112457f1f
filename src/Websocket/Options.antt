-- ===== src/Websocket/Options.antt =====
-- The options of adapter/kratos/transport/websocket/websocket.go. The JSON decoders are parameters; an encoder is
-- known by the object that it writes.
use opendevops_codo_golang_s.Websocket.Write.{
  Envelope, Reply, encode_reply, write_loop, encode_error, write_loop-All,
}
use opendevops_codo_golang_s.Websocket.{Applied, Incoming, Event, Ended, read_loop}
use opendevops_codo_golang_s.Websocket.Chain.{Handler}
use opendevops_codo_golang_s.Common.{Bytes, List, Option, Bool, foldl, ◌⊎◌, ◌≡◌, [], All}

-- Encoding, for responses of type T and requests of type R.
record Encoding (T R M : Type 0) : Type 0 where
  pub response_encode : T → M
  pub error_encode : Bytes → M
  pub request_decode : Bytes → R ⊎ Bytes
  pub ws_req_decode : Bytes → R ⊎ Bytes
  pub reply_encode : T → M
  pub reply_error_encode : Bytes → M

-- WSOptions; W is the state of the handlers.
record WsOptions (T R M W : Type 0) : Type 0 where
  pub encoding : Encoding T R M
  pub middlewares : List (Handler W → Handler W)

-- defaultWSOptions: the two decoders are json.Decoder and unmarshalJSON.
unfoldable default_ws_options :
    {T R W : Type 0} → (decode unmarshal : Bytes → R ⊎ Bytes) → WsOptions T R (Envelope T) W
default_ws_options decode unmarshal = record {
  encoding = record {
    response_encode = encode_reply;
    error_encode = encode_error;
    request_decode = decode;
    ws_req_decode = unmarshal;
    reply_encode = encode_reply;
    reply_error_encode = encode_error;
  };
  middlewares = [];
}

module _ {T R M W : Type 0} where
  unfoldable with_response_encode : (T → M) → WsOptions T R M W → WsOptions T R M W
  with_response_encode fn o = record o { encoding = record o.encoding { response_encode = fn } }

  unfoldable with_error_encode : (Bytes → M) → WsOptions T R M W → WsOptions T R M W
  with_error_encode fn o = record o { encoding = record o.encoding { error_encode = fn } }

  unfoldable with_request_decode : (Bytes → R ⊎ Bytes) → WsOptions T R M W → WsOptions T R M W
  with_request_decode fn o = record o { encoding = record o.encoding { request_decode = fn } }

  unfoldable with_ws_req_decode : (Bytes → R ⊎ Bytes) → WsOptions T R M W → WsOptions T R M W
  with_ws_req_decode fn o = record o { encoding = record o.encoding { ws_req_decode = fn } }

  unfoldable with_reply_encode : (T → M) → WsOptions T R M W → WsOptions T R M W
  with_reply_encode fn o = record o { encoding = record o.encoding { reply_encode = fn } }

  unfoldable with_reply_error_encode : (Bytes → M) → WsOptions T R M W → WsOptions T R M W
  with_reply_error_encode fn o = record o {
    encoding = record o.encoding { reply_error_encode = fn };
  }

  -- WithWSMiddlewareFunc: the middlewares of an earlier option are lost.
  unfoldable with_middlewares : List (Handler W → Handler W) → WsOptions T R M W → WsOptions T R M W
  with_middlewares fns o = record o { middlewares = fns }

  -- NewWebSocket
  unfoldable new_web_socket :
      WsOptions T R M W → List (WsOptions T R M W → WsOptions T R M W) → WsOptions T R M W
  new_web_socket default opts = foldl (λ o f. f o) default opts

  -- writeLoop with the encoder of the options.
  unfoldable write_all : WsOptions T R M W → List (Bool × Reply T) → List M × Bool
  write_all o script = write_loop o.encoding.reply_encode script

  -- readLoop with the decoder of the options.
  unfoldable read_all :
      WsOptions T R M W
      → (validate : R → Option Bytes) → (apply : R → Applied) → List (Bool × Incoming)
      → List (Event R) × Ended
  read_all o validate apply script = read_loop o.encoding.ws_req_decode validate apply script

-- A server with the default encoder of replies tells its peer of a success in each object that the write loop
-- sends, whatever errors the replier returns.
write_all-All :
    {T R : Type 0} (W : Type 0) (decode unmarshal : Bytes → R ⊎ Bytes)
    (script : List (Bool × Reply T))
    → All
        (λ (m : Envelope T). m.code ≡ 200)
        (write_all {W = W} (new_web_socket (default_ws_options decode unmarshal) []) script).0
unfolding write_all new_web_socket default_ws_options
write_all-All W decode unmarshal script = write_loop-All script
