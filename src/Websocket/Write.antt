-- ===== src/Websocket/Write.antt =====
-- The write loop of adapter/kratos/transport/websocket/websocket.go, over what the replier answers, and the
-- envelopes of the default encoders.
use opendevops_codo_golang_s.Common.{
  ◌∷◌, Bytes, List, utf8, ℕ, Bool, Option, [], none, some, false, ◌++◌, ◌≡◌, ap, refl, true, All,
}

-- What Reply returns: a response, context.Canceled below any wrapping, or another error, beside which there
-- is a response too.
pub data Reply (T : Type 0) : Type 0 where
  response : T → Reply T
  canceled : Reply T
  failed : (error : Bytes) → T → Reply T

-- The JSON object that an encoder of defaultWSOptions writes.
pub record Envelope (T : Type 0) : Type 0 where
  pub code : ℕ
  pub msg : Bytes
  pub content : Option T

-- responseEncodeFunc and replyEncodeFunc of defaultWSOptions
unfoldable pub encode_reply : {T : Type 0} → T → Envelope T
encode_reply t = record { code = 200; msg = utf8 "ok"; content = some t }

-- errorEncodeFunc and replyErrorEncodeFunc of defaultWSOptions
unfoldable pub encode_error : {T : Type 0} → Bytes → Envelope T
encode_error e = record { code = 500; msg = e; content = none }

-- What a round of writeLoop sends behind the test of the context.
unfoldable pub write_round : {T M : Type 0} → (T → M) → Reply T → List M
write_round encode canceled = []
write_round encode (response t) = encode t ∷ []
write_round encode (failed e t) = encode t ∷ []

-- writeLoop on what Reply answers in turn, beside whether the context was done before the round: what is
-- sent, and whether the loop has returned. A round calls `encode` of the options.
unfoldable pub write_loop : {T M : Type 0} → (T → M) → List (Bool × Reply T) → List M × Bool
unfolding write_round
write_loop encode [] = ([], false)
write_loop encode ((true, r) ∷ rest) = ([], true)
write_loop encode ((false, r) ∷ rest) =
    let (sent, ended) = write_loop encode rest in (write_round encode r ++ sent, ended)

write_loop-append :
    {T M : Type 0} (encode : T → M) (before rest rest' : List (Bool × Reply T))
    → write_loop encode rest ≡ write_loop encode rest'
    → write_loop encode (before ++ rest) ≡ write_loop encode (before ++ rest')
unfolding write_loop
write_loop-append encode [] rest rest' h = h
write_loop-append encode ((true, r) ∷ before) rest rest' h = refl
write_loop-append encode ((false, r) ∷ before) rest rest' h =
    ap (λ p. (write_round encode r ++ p.0, p.1)) (write_loop-append encode before rest rest' h)

same_round :
    {T M : Type 0} (encode : T → M) (after : List (Bool × Reply T)) (e : Bytes) (t : T)
    → write_loop encode ((false, failed e t) ∷ after)
      ≡ write_loop encode ((false, response t) ∷ after)
unfolding write_loop
same_round encode after e t = refl

-- The error of a reply is lost: whatever the encoder, the peer is sent the same as for a success with the
-- response that stands beside the error, and the loop goes on in the same way.
write_loop_failed :
    {T M : Type 0} (encode : T → M) (before after : List (Bool × Reply T)) (e : Bytes) (t : T)
    → write_loop encode (before ++ (false, failed e t) ∷ after)
      ≡ write_loop encode (before ++ (false, response t) ∷ after)
write_loop_failed encode before after e t =
    write_loop-append encode before ((false, failed e t) ∷ after) ((false, response t) ∷ after)
      (same_round encode after e t)

-- The default encoder writes the code of success only.
pub write_loop-All :
    {T : Type 0} (script : List (Bool × Reply T))
    → All (λ (m : Envelope T). m.code ≡ 200) (write_loop encode_reply script).0
unfolding write_loop write_round encode_reply
write_loop-All [] = tt
write_loop-All ((true, r) ∷ script) = tt
write_loop-All ((false, response t) ∷ script) = (refl, write_loop-All script)
write_loop-All ((false, canceled) ∷ script) = write_loop-All script
write_loop-All ((false, failed e t) ∷ script) = (refl, write_loop-All script)
