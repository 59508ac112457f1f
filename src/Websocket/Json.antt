-- ===== src/Websocket/Json.antt =====
-- unmarshalJSON of adapter/kratos/transport/websocket/websocket.go: the same text as Unmarshal of
-- config/config.go. The read loop calls it on the address of a request, which is not nil.
use opendevops_codo_golang_s.Common.{Option, ◌≡◌, false, some, Bool-cases, inl, inr, arith}
use opendevops_codo_golang_s.Config.Json.{
  Target, Codec, Methods, IsFilled, unmarshal, unmarshal-pointer, pointer, own, proto,
}

-- The decoder that is called, and the value that it is called on; `none` for a panic.
unfoldable unmarshal_json : Target → Option (Codec × Target)
unmarshal_json t = unmarshal t

-- wsReqDecodeFunc of the default options on &dst, for requests of a type that t describes.
unfoldable decode_request : Methods → Target → Option (Codec × Target)
unfolding unmarshal_json
decode_request m t = unmarshal_json (pointer m false t)

-- The decoder of a request never panics, whatever the type of the requests, and where the address has no
-- decoder of its own, it leaves no nil pointer on the way to the value.
decode_request-total :
    (m : Methods) (t : Target)
    → (c : Codec) × (u : Target) × (decode_request m t ≡ some (c, u))
      × (m.is_json ≡ false → m.is_proto ≡ false → IsFilled u)
unfolding decode_request unmarshal_json unmarshal
decode_request-total m t = elim (Bool-cases m.is_json) [
  | inl e ↦ (own, pointer m false t, ground (arith, e), λ no_json no_proto. absurd (cc))
  | inr e ↦ elim (Bool-cases m.is_proto) [
    | inl e' ↦ (proto, pointer m false t, ground (arith, e, e'), λ no_json no_proto. absurd (cc))
    | inr e' ↦
        let (u, read, filled) = unmarshal-pointer m t e e' in
        (_, u, read, λ no_json no_proto. filled)
  ]
]
