-- ===== src/Transport/Chttp/Decode.antt =====
-- RequestBodyDecoder of transport/chttp/http.go.
use opendevops_codo_golang_s.Cerr.Code.{e_param_unparsed_code}
use opendevops_codo_golang_s.Cerr.Errors.{CodeError, GoError, new}
use opendevops_codo_golang_s.Common.{
  Bytes, Option, ℕ, Bool, ◌*◌, ◌⊎◌, if◌then◌else◌, inl, some, ◌^◌, ◌≡◌, inr, none, ◌==◌, ◌||◌, ◌∷◌,
  [], ltb, false, Bool-cases, arith, refl,
}
use opendevops_codo_golang_s.Go.Number.{ℤ, pos, negsuc}

-- A body is what a reader has left to give, or the error that reading it ends with.
pub record Request : Type 0 where
  pub content_length : ℤ
  pub body : Bytes ⊎ GoError

abbrev mega_bytes_4 : ℕ
mega_bytes_4 = 4 * 2 ^ 20

-- Where the decoder returns at once: an empty body, or one above 4 MB. An unknown length is -1.
unfoldable skips : ℤ → Bool
skips (pos n) = n == 0 || ltb mega_bytes_4 n
skips (negsuc n) = false

-- The request with a fresh reader over the bytes that were read, the target, and the error.
abbrev Decoded : Type 0 → Type 0
Decoded D = Request × D × Option CodeError

module _ {D : Type 0} (unmarshal : Bytes → D → D × Option GoError) where
  coded : Option GoError → Option CodeError
  coded none = none
  coded (some e) = some (new e_param_unparsed_code e)

  decode_bytes : Request → D → Bytes → Decoded D
  unfolding coded
  decode_bytes r dst [] = (record r { body = inl [] }, dst, none)
  decode_bytes r dst (c ∷ s) =
      let (dst', e) = unmarshal (c ∷ s) dst in (record r { body = inl (c ∷ s) }, dst', coded e)

  read_body : Request → D → Bytes ⊎ GoError → Decoded D
  unfolding decode_bytes
  read_body r dst (inl bs) = decode_bytes r dst bs
  read_body r dst (inr e) = (r, dst, some (new e_param_unparsed_code e))

  unfoldable pub request_body_decoder : Request → D → Decoded D
  unfolding read_body skips
  request_body_decoder r dst =
      if skips r.content_length then (r, dst, none) else read_body r dst r.body

  read_body-body : (r : Request) (dst : D) (bs : Bytes) → (read_body r dst (inl bs)).0.body ≡ inl bs
  unfolding read_body
  read_body-body r dst [] = refl
  read_body-body r dst (c ∷ s) = refl

  read_body-code :
      (r : Request) (dst : D) (b : Bytes ⊎ GoError) (x : CodeError)
      → (read_body r dst b).2 ≡ some x
      → x.code ≡ e_param_unparsed_code
  unfolding read_body new
  read_body-code r dst (inl []) x h = cc
  read_body-code r dst (inl (c ∷ s)) x h = ground arith
  read_body-code r dst (inr e) x h = ground arith

  -- A body that could be read is still there for the next reader, whole.
  request_body_decoder_body :
      (r : Request) (dst : D) (bs : Bytes)
      → r.body ≡ inl bs
      → (request_body_decoder r dst).0.body ≡ inl bs
  unfolding request_body_decoder
  request_body_decoder_body r dst bs h = grind (arith, read_body-body)

  -- Every error of the decoder has the code for unparsed parameters.
  request_body_decoder_code :
      (r : Request) (dst : D) (x : CodeError)
      → (request_body_decoder r dst).2 ≡ some x
      → x.code ≡ e_param_unparsed_code
  unfolding request_body_decoder new
  request_body_decoder_code r dst x h = elim (Bool-cases (skips r.content_length)) [
    | inl skip ↦ (let e : none ≡ some x = rw skip at h in cc)
    | inr go ↦ read_body-code r dst r.body x (rw go at h)
  ]
