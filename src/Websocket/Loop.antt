-- ===== src/Websocket/Loop.antt =====
-- What readLoop of adapter/kratos/transport/websocket/websocket.go applies.
use opendevops_codo_golang_s.Websocket.{
  Applied, Event, applied, decoded, read_loop, read_round, validated, Ended, Incoming, answered,
  replied, close_error, followed, message, refused, done, left, reset_by_peer, again, canceled,
  read_error,
}
use opendevops_codo_golang_s.Common.{
  Bytes, ◌⊎◌, Option, List, Bool, ◌≡◌, All, inl, none, All-append, inr, ◌++◌, false, refl, ◌∷◌, [],
  ap, true, some,
}

module _ {R : Type 0} (decode : Bytes → R ⊎ Bytes) (validate : R → Option Bytes)
    (apply : R → Applied) where
  -- A request that is decoded from a message and passes the validation; nothing of an error reply.
  abbrev pub IsVetted : Event R → Type 0
  IsVetted (replied e) = Unit
  IsVetted (applied r) = (validate r ≡ none) × ((bs : Bytes) × (decode bs ≡ inl r))

  answered-IsVetted : (r : R) (a : Applied) → IsVetted (applied r) → All IsVetted (answered r a).0
  answered-IsVetted r done h = (h, tt)
  answered-IsVetted r canceled h = (h, tt)
  answered-IsVetted r (refused e) h = (h, (tt, tt))

  validated-IsVetted :
      (bs : Bytes) (r : R) (v : Option Bytes)
      → decode bs ≡ inl r
      → validate r ≡ v
      → All IsVetted (validated decode validate apply r v).0
  validated-IsVetted bs r none h hv = answered-IsVetted r (apply r) (hv, (bs, h))
  validated-IsVetted bs r (some e) h hv = (tt, tt)

  decoded-IsVetted :
      (bs : Bytes) (d : R ⊎ Bytes)
      → decode bs ≡ d
      → All IsVetted (decoded decode validate apply d).0
  decoded-IsVetted bs (inl r) h = validated-IsVetted bs r (validate r) h refl
  decoded-IsVetted bs (inr e) h = (tt, tt)

  round-IsVetted : (i : Incoming) → All IsVetted (read_round decode validate apply i).0
  unfolding read_round
  round-IsVetted reset_by_peer = tt
  round-IsVetted close_error = tt
  round-IsVetted read_error = tt
  round-IsVetted (message bs) = decoded-IsVetted bs (decode bs) refl

  followed-IsVetted :
      (a b : List (Event R) × Ended)
      → All IsVetted a.0
      → All IsVetted b.0
      → All IsVetted (followed a b).0
  followed-IsVetted (es, left) b ha hb = ha
  followed-IsVetted (es, again) b ha hb = All-append IsVetted es b.0 ha hb

  -- Whatever the connection answers, each request that the read loop gives to the replier was decoded from
  -- a message and has passed the validation.
  pub read_loop-IsVetted :
      (script : List (Bool × Incoming)) → All IsVetted (read_loop decode validate apply script).0
  unfolding read_loop
  read_loop-IsVetted [] = tt
  read_loop-IsVetted ((true, i) ∷ rest) = tt
  read_loop-IsVetted ((false, i) ∷ rest) =
      followed-IsVetted (read_round decode validate apply i) (read_loop decode validate apply rest)
        (round-IsVetted i) (read_loop-IsVetted rest)

  -- Where a close error or a reset of the connection comes, the loop returns, and what the connection
  -- would answer after it has no effect.
  read_loop_closed :
      (before after : List (Bool × Incoming)) (i : Incoming)
      → (i ≡ close_error) ⊎ (i ≡ reset_by_peer)
      → (read_loop decode validate apply (before ++ (false, i) ∷ after)
          ≡ read_loop decode validate apply (before ++ (false, i) ∷ []))
        × ((read_loop decode validate apply (before ++ (false, i) ∷ after)).1 ≡ left)
  unfolding read_loop read_round
  read_loop_closed [] after i (inl e) = rw e (refl, refl)
  read_loop_closed [] after i (inr e) = rw e (refl, refl)
  read_loop_closed ((true, j) ∷ before) after i h = (refl, refl)
  read_loop_closed ((false, j) ∷ before) after i h =
      let (same_loop, ends) = read_loop_closed before after i h in
      (
        ap (followed (read_round decode validate apply j)) same_loop,
        followed_left (read_round decode validate apply j) _ ends,
      )
    where
      followed_left : (a b : List (Event R) × Ended) → b.1 ≡ left → (followed a b).1 ≡ left
      followed_left (es, left) b h = refl
      followed_left (es, again) b h = h
