-- ===== src/Websocket/Session/Quiet.antt =====
-- A websocket connection whose peer sends no close frame.
use opendevops_codo_golang_s.Websocket.Session.Run.{Move, flatten, run, run-turns}
use opendevops_codo_golang_s.Websocket.Write.{Reply}
use opendevops_codo_golang_s.Websocket.{Applied, Incoming}
use opendevops_codo_golang_s.Common.{
  ◌∷◌, Bytes, ◌⊎◌, Option, Bool, List, false, ◌≡◌, All, [], refl, arith, ℕ, some, subst,
}
use opendevops_codo_golang_s.Websocket.Session.{
  Session, Turn, Stage, turns, alone, grouped, waited, testing, busy, ended, tested, is_ended,
  reads, replies, reader_tests, closes, writer_tests, read_turn, request_done, write_turn,
}

-- Neither a close frame nor the end of the request.
abbrev pub IsQuiet : {T : Type 0} → Turn T → Type 0
IsQuiet reader_tests = Unit
IsQuiet (reads i) = Unit
IsQuiet closes = ⊥
IsQuiet writer_tests = Unit
IsQuiet (replies r) = Unit
IsQuiet request_done = ⊥

module _ {R T M : Type 0} (decode : Bytes → R ⊎ Bytes) (validate : R → Option Bytes)
    (apply : R → Applied) (encode : T → M) where
  -- The context is not cancelled, and the write loop runs.
  abbrev Runs : Session R M → Type 0
  Runs s = (s.cancelled ≡ false) × (is_ended s.writer ≡ false)

  abbrev step : (cancels : Bool) → Turn T → Session R M → Session R M
  step cancels t s =
      grouped decode validate apply encode cancels (alone decode validate apply encode cancels t s)

  read_turn-Runs :
      (i : Incoming) (stage : Stage) (s : Session R M)
      → Runs s
      → Runs (read_turn decode validate apply encode false i stage s)
  read_turn-Runs i testing s h = h
  read_turn-Runs i busy s h = h
  read_turn-Runs i ended s h = h

  write_turn-Runs :
      (r : Reply T) (stage : Stage) (s : Session R M)
      → Runs s
      → Runs (write_turn decode validate apply encode false r stage s)
  write_turn-Runs r testing s h = h
  write_turn-Runs r busy s h = (h.0, refl)
  write_turn-Runs r ended s h = h

  tested-running : (stage : Stage) → is_ended stage ≡ false → is_ended (tested false stage) ≡ false
  tested-running testing h = refl
  tested-running busy h = refl
  tested-running ended h = h

  alone-Runs :
      (t : Turn T) (s : Session R M)
      → IsQuiet t
      → Runs s
      → Runs (alone decode validate apply encode false t s)
  unfolding alone
  alone-Runs reader_tests s q h = h
  alone-Runs (reads i) s q h = read_turn-Runs i s.reader s h
  alone-Runs closes s q h = absurd q
  alone-Runs writer_tests s q (c, w) = (c, rw c (tested-running s.writer w))
  alone-Runs (replies r) s q h = write_turn-Runs r s.writer s h
  alone-Runs request_done s q h = absurd q

  turns-Runs :
      (ts : List (Turn T)) (s : Session R M)
      → All IsQuiet ts
      → Runs s
      → Runs (turns decode validate apply encode false ts s)
  unfolding turns grouped
  turns-Runs [] s q h = h
  turns-Runs (t ∷ ts) s (q, qs) h =
      let (c, w) = alone-Runs t s q h in turns-Runs ts _ qs (rw c refl, w)

  -- Where the errgroup cancels its context on an error only: as long as the peer sends no close frame, the request
  -- is not done and the connection does not panic, that is, the loops do not write at the same time and fewer than
  -- `patience` reads fail, the two loops never both end, whatever the decoder, the validation and the replier answer,
  -- also where the read loop has ended on a reset, on the end of the stream or on a request that fails the
  -- validation; nor is their context cancelled.
  pub run_quiet :
      (patience misses : ℕ) (ms : List (Move T)) (s later : Session R M)
      → All IsQuiet (flatten ms)
      → s.cancelled ≡ false
      → is_ended s.writer ≡ false
      → run decode validate apply encode false patience ms misses s ≡ some later
      → (waited later ≡ false) × (later.cancelled ≡ false)
  run_quiet patience misses ms s later q c w h =
      let (c', w') = turns-Runs (flatten ms) s q (c, w) in
      subst (λ d. (waited d ≡ false) × (d.cancelled ≡ false))
        (run-turns decode validate apply encode false patience ms misses s later h)
        (ground (arith, w'), c')
