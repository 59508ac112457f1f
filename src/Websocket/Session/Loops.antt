-- ===== src/Websocket/Session/Loops.antt =====
-- The two loops of a websocket connection side by side do what each does alone.
use opendevops_codo_golang_s.Websocket.Write.{Reply, write_loop, canceled}
use opendevops_codo_golang_s.Websocket.{
  Incoming, read_error, Applied, Event, read_loop, close_error,
}
use opendevops_codo_golang_s.Common.{
  ◌∷◌, Bool, Bytes, List, ◌⊎◌, Option, ◌++◌, [], ◌≡◌, false, true, lefts, rights,
}
use opendevops_codo_golang_s.Websocket.Session.{
  Session, Turn, Stage, turns, alone, grouped, testing, busy, reads, replies, closes, reader_tests,
  writer_tests,
}

-- What the read loop meets in a turn: a cancelled context at its test, or what ReadMessage returns.
abbrev reader_meets : {T : Type 0} → Turn T → Stage → (cancelled : Bool) → List (Bool × Incoming)
reader_meets reader_tests testing true = (true, read_error) ∷ []
reader_meets (reads i) busy c = (false, i) ∷ []
reader_meets closes busy c = (false, close_error) ∷ []
reader_meets t stage c = []

-- What the write loop meets in a turn: a cancelled context at its test, or what Reply returns.
abbrev writer_meets : {T : Type 0} → Turn T → Stage → (cancelled : Bool) → List (Bool × Reply T)
writer_meets writer_tests testing true = (true, canceled) ∷ []
writer_meets (replies r) busy c = (false, r) ∷ []
writer_meets t stage c = []

module _ {R T M : Type 0} (decode : Bytes → R ⊎ Bytes) (validate : R → Option Bytes)
    (apply : R → Applied) (encode : T → M) (cancels : Bool) where
  abbrev step : Turn T → Session R M → Session R M
  step t s =
      grouped decode validate apply encode cancels (alone decode validate apply encode cancels t s)

  -- And in all turns.
  unfoldable pub reader_script : List (Turn T) → Session R M → List (Bool × Incoming)
  reader_script [] s = []
  reader_script (t ∷ ts) s = reader_meets t s.reader s.cancelled ++ reader_script ts (step t s)

  unfoldable pub writer_script : List (Turn T) → Session R M → List (Bool × Reply T)
  writer_script [] s = []
  writer_script (t ∷ ts) s = writer_meets t s.writer s.cancelled ++ writer_script ts (step t s)

  abbrev at : Stage → Stage → Bool → List (Event R ⊎ M) → Session R M
  at rd wr c out = record { reader = rd; writer = wr; cancelled = c; out = out }

  -- The events of the read loop in a session are those of the loop alone on what it meets.
  abbrev ReadsAlone : List (Turn T) → Session R M → Type 0
  ReadsAlone ts s =
      lefts (turns decode validate apply encode cancels ts s).out
      ≡ lefts s.out ++ (read_loop decode validate apply (reader_script ts s)).0

  -- What the write loop sends in a session is what it sends alone on what it meets.
  abbrev WritesAlone : List (Turn T) → Session R M → Type 0
  WritesAlone ts s =
      rights (turns decode validate apply encode cancels ts s).out
      ≡ rights s.out ++ (write_loop encode (writer_script ts s)).0
