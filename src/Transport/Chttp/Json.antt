-- ===== src/Transport/Chttp/Json.antt =====
-- unmarshalJSON of transport/chttp/http.go, which RequestBodyDecoder calls: the same text as Unmarshal of
-- config/config.go.
use opendevops_codo_golang_s.Common.{Option}
use opendevops_codo_golang_s.Config.Json.{Target, Codec, unmarshal}

-- The decoder that is called, and the value that it is called on; `none` for a panic.
unfoldable unmarshal_json : Target → Option (Codec × Target)
unmarshal_json t = unmarshal t
