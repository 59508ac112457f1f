-- ===== src/Websocket/Session.antt =====
-- The two loops of handleConnections of adapter/kratos/transport/websocket/websocket.go side by side, on one
-- context: whose turn it is and what the connection and the replier answer is a list of turns, where `Run` adds
-- what happens at the same time and the panics of the connection. `cancels`
-- tells whether the errgroup cancels its context where a function of it returns nil.
pub mod Run
pub mod Ends
pub mod Quiet
pub mod Loops
use opendevops_codo_golang_s.Common.{
  ◌∷◌, Bool, Bytes, false, List, [], true, ◌⊎◌, Option, ◌++◌, map, inl, inr, ◌||◌, ◌&&◌,
}
use opendevops_codo_golang_s.Websocket.{
  Event, Applied, Incoming, Ended, read_round, again, close_error, left,
}
use opendevops_codo_golang_s.Websocket.Write.{Reply, write_round}

-- Where a loop stands: at its test of the context, in ReadMessage or Reply, or behind its end.
pub data Stage : Type 0 where
  testing busy ended : Stage

pub record Session (R M : Type 0) : Type 0 where
  pub reader : Stage
  pub writer : Stage
  pub cancelled : Bool
  -- What the read loop does, and what the write loop sends, the first one first.
  pub out : List (Event R ⊎ M)

pub data Turn (T : Type 0) : Type 0 where
  -- The read loop tests the context.
  reader_tests : Turn T
  -- ReadMessage returns, without a close frame from the peer; a CloseError stands for an end of the stream too.
  reads : Incoming → Turn T
  -- A close frame comes: ReadMessage runs the close handler, and returns a CloseError.
  closes : Turn T
  -- The write loop tests the context.
  writer_tests : Turn T
  -- Reply returns.
  replies : Reply T → Turn T
  -- The context of the request is done.
  request_done : Turn T

-- Both loops as eg.Go starts them.
abbrev pub opened : {R M : Type 0} → Session R M
opened = record { reader = testing; writer = testing; cancelled = false; out = [] }

abbrev pub is_ended : Stage → Bool
is_ended testing = false
is_ended busy = false
is_ended ended = true

-- eg.Wait returns.
abbrev pub waited : {R M : Type 0} → Session R M → Bool
waited s = is_ended s.reader && is_ended s.writer

-- A loop behind its test of the context.
abbrev pub tested : (cancelled : Bool) → Stage → Stage
tested true testing = ended
tested false testing = busy
tested cancelled stage = stage

module _ {R T M : Type 0} (decode : Bytes → R ⊎ Bytes) (validate : R → Option Bytes)
    (apply : R → Applied) (encode : T → M) (cancels : Bool) where
  abbrev pub stage_of : Ended → Stage
  stage_of again = testing
  stage_of left = ended

  -- The read loop with what ReadMessage returned.
  abbrev pub read_turn : Incoming → Stage → Session R M → Session R M
  read_turn i busy s =
      let (events, end) = read_round decode validate apply i in
      record s { reader = stage_of end; out = s.out ++ map inl events }
  read_turn i stage s = s

  -- cancel() of the close handler, while ReadMessage runs.
  abbrev pub close_turn : Stage → Session R M → Session R M
  close_turn busy s = read_turn close_error busy (record s { cancelled = true })
  close_turn stage s = s

  abbrev pub write_turn : Reply T → Stage → Session R M → Session R M
  write_turn r busy s = record s { writer = testing; out = s.out ++ map inr (write_round encode r) }
  write_turn r stage s = s

  unfoldable pub alone : Turn T → Session R M → Session R M
  alone reader_tests s = record s { reader = tested s.cancelled s.reader }
  alone (reads i) s = read_turn i s.reader s
  alone closes s = close_turn s.reader s
  alone writer_tests s = record s { writer = tested s.cancelled s.writer }
  alone (replies r) s = write_turn r s.writer s
  alone request_done s = record s { cancelled = true }

  -- Both loops return nil at their ends.
  unfoldable pub grouped : Session R M → Session R M
  grouped s = record s {
    cancelled = s.cancelled || (cancels && (is_ended s.reader || is_ended s.writer));
  }

  unfoldable pub turns : List (Turn T) → Session R M → Session R M
  unfolding alone grouped
  turns [] s = s
  turns (t ∷ ts) s = turns ts (grouped (alone t s))
