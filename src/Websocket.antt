-- ===== src/Websocket.antt =====
-- adapter/kratos/transport/websocket/websocket.go: the middleware chain of handleConnections and the read
-- loop, over what the connection, the decoder and the replier answer.
pub mod Chain
pub mod Loop
pub mod Write
pub mod Connection
pub mod Session
pub mod Server
pub mod Options
pub mod Json
use opendevops_codo_golang_s.Common.{
  Bytes, ◌⊎◌, Option, List, Bool, [], none, ◌∷◌, inr, some, ◌≡◌, inl, true, ◌++◌, false,
}

-- What ReadMessage returns: a message, an error with "connection reset by peer" in its text, a CloseError,
-- or another error, also one that every later call returns again: `Websocket/Session/Run` counts these.
pub data Incoming : Type 0 where
  message : Bytes → Incoming
  reset_by_peer : Incoming
  close_error : Incoming
  read_error : Incoming

-- What Apply returns: no error, context.Canceled below any wrapping, or another error.
pub data Applied : Type 0 where
  done canceled : Applied
  refused : Bytes → Applied

-- What the loop does that others see: a request given to the replier, or an error written to the peer.
pub data Event (R : Type 0) : Type 0 where
  applied : R → Event R
  replied : Bytes → Event R

-- How a round of the loop ends: `continue` or at its end, or `return`.
pub data Ended : Type 0 where
  again left : Ended

-- The rest of the loop behind a round.
abbrev pub followed :
    {R : Type 0} → List (Event R) × Ended → List (Event R) × Ended → List (Event R) × Ended
followed (events, left) rest = (events, left)
followed (events, again) rest = (events ++ rest.0, rest.1)

-- The round behind Apply.
abbrev pub answered : {R : Type 0} → R → Applied → List (Event R) × Ended
answered r done = (applied r ∷ [], again)
answered r canceled = (applied r ∷ [], again)
answered r (refused e) = (applied r ∷ replied e ∷ [], again)

module _ {R : Type 0} (decode : Bytes → R ⊎ Bytes) (validate : R → Option Bytes)
    (apply : R → Applied) where
  -- The round behind Validate; a type without that method has a `validate` that always answers `none`.
  abbrev pub validated : R → Option Bytes → List (Event R) × Ended
  validated r none = answered r (apply r)
  validated r (some e) = (replied e ∷ [], left)

  -- The round behind the decoder.
  abbrev pub decoded : R ⊎ Bytes → List (Event R) × Ended
  decoded (inr e) = (replied e ∷ [], again)
  decoded (inl r) = validated r (validate r)

  -- One round of readLoop behind the test of the context.
  unfoldable pub read_round : Incoming → List (Event R) × Ended
  read_round reset_by_peer = ([], left)
  read_round close_error = ([], left)
  read_round read_error = ([], again)
  read_round (message bs) = decoded (decode bs)

  -- readLoop on what the connection answers in turn, beside whether the context was done before the round:
  -- the events, and whether the loop has returned.
  unfoldable pub read_loop : List (Bool × Incoming) → List (Event R) × Ended
  unfolding read_round
  read_loop [] = ([], again)
  read_loop ((true, i) ∷ rest) = ([], left)
  read_loop ((false, i) ∷ rest) = followed (read_round i) (read_loop rest)
