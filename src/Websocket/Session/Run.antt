-- ===== src/Websocket/Session/Run.antt =====
-- The two loops of handleConnections of adapter/kratos/transport/websocket/websocket.go on a connection of
-- gorilla/websocket, on which only one goroutine may write at a time, and whose ReadMessage panics on the
-- `patience`-th call that fails. The loops share no lock: where they write at the same time, the connection panics
-- or mixes the two messages, and the model has no result from there on.
use opendevops_codo_golang_s.Websocket.Write.{Reply, write_round}
use opendevops_codo_golang_s.Websocket.{
  Incoming, Event, read_error, Applied, applied, replied, read_round,
}
use opendevops_codo_golang_s.Websocket.Session.{
  Stage, Turn, reads, replies, busy, Session, testing, turns, ended,
}
use opendevops_codo_golang_s.Common.{
  ◌∷◌, Bytes, List, ℕ, Bool, ◌+◌, ◌⊎◌, Option, false, leb, [], true, some, ◌&&◌, ◌≡◌, arith,
  if◌then◌else◌, Bool-cases, none, inl, ◌||◌, inr, ◌++◌, ap, refl,
}

pub data Move (T : Type 0) : Type 0 where
  -- One loop, or the context, on its own.
  one : Turn T → Move T
  -- ReadMessage and Reply return at the same time, and so what the two loops then write overlaps.
  both : Incoming → Reply T → Move T

-- The turns of a run, one behind the other.
unfoldable pub flatten : {T : Type 0} → List (Move T) → List (Turn T)
flatten [] = []
flatten (one t ∷ ms) = t ∷ flatten ms
flatten (both i r ∷ ms) = reads i ∷ replies r ∷ flatten ms

abbrev is_busy : Stage → Bool
is_busy testing = false
is_busy busy = true
is_busy ended = false

-- Whether a round of the read loop writes an error to the peer.
abbrev writes : {R : Type 0} → List (Event R) → Bool
writes [] = false
writes (applied r ∷ es) = writes es
writes (replied e ∷ es) = true

abbrev is_some_message : {M : Type 0} → List M → Bool
is_some_message [] = false
is_some_message (m ∷ ms) = true

-- One more failed read, where ReadMessage is called.
abbrev pub failures : Incoming → Stage → ℕ → ℕ
failures read_error busy n = n + 1
failures i stage n = n

-- ReadMessage panics.
abbrev pub exhausted : (patience : ℕ) → Incoming → Stage → ℕ → Bool
exhausted patience read_error busy n = leb patience (n + 1)
exhausted patience i stage n = false

abbrev pub turn_failures : {T : Type 0} → Turn T → Stage → ℕ → ℕ
turn_failures (reads i) stage n = failures i stage n
turn_failures t stage n = n

abbrev pub turn_exhausted : {T : Type 0} → ℕ → Turn T → Stage → ℕ → Bool
turn_exhausted patience (reads i) stage n = exhausted patience i stage n
turn_exhausted patience t stage n = false

module _ {R T M : Type 0} (decode : Bytes → R ⊎ Bytes) (validate : R → Option Bytes)
    (apply : R → Applied) (encode : T → M) (cancels : Bool) (patience : ℕ) where
  -- Both loops are about to write, at the same time.
  abbrev pub clash : Incoming → Reply T → Session R M → Bool
  clash i r s =
      is_busy s.reader
      && (is_busy s.writer
          && (writes (read_round decode validate apply i).0
              && is_some_message (write_round encode r)))

  -- One turn behind the other: `none` where the connection panics in one of the loops. The number is that of
  -- the reads that failed so far.
  unfoldable pub run : List (Move T) → ℕ → Session R M → Option (Session R M)
  unfolding turns
  run [] n s = some s
  run (one t ∷ ms) n s =
      let rest =
        run ms (turn_failures t s.reader n)
          (turns decode validate apply encode cancels (t ∷ []) s) in
      if turn_exhausted patience t s.reader n then none else rest
  run (both i r ∷ ms) n s =
      let rest =
        run ms (failures i s.reader n)
          (turns decode validate apply encode cancels (reads i ∷ replies r ∷ []) s) in
      if exhausted patience i s.reader n || clash i r s then none else rest

  -- A run without a panic is its turns.
  pub run-turns :
      (ms : List (Move T)) (n : ℕ) (s d : Session R M)
      → run ms n s ≡ some d
      → turns decode validate apply encode cancels (flatten ms) s ≡ d
  unfolding run turns flatten
  run-turns [] n s d h = ground (arith, h)
  run-turns (one t ∷ ms) n s d h = elim (Bool-cases (turn_exhausted patience t s.reader n)) [
    | inl e ↦ absurd (ground (arith, e, h))
    | inr e ↦ run-turns ms (turn_failures t s.reader n) _ d (rw e at h)
  ]
  run-turns (both i r ∷ ms) n s d h =
      elim (Bool-cases (exhausted patience i s.reader n || clash i r s)) [
        | inl e ↦ absurd (ground (arith, e, h))
        | inr e ↦ run-turns ms (failures i s.reader n) _ d (rw e at h)
      ]

pub flatten-append :
    {T : Type 0} (ms ns : List (Move T)) → flatten (ms ++ ns) ≡ flatten ms ++ flatten ns
unfolding flatten
flatten-append [] ns = refl
flatten-append (one t ∷ ms) ns = ap (λ ts. t ∷ ts) (flatten-append ms ns)
flatten-append (both i r ∷ ms) ns = ap (λ ts. reads i ∷ replies r ∷ ts) (flatten-append ms ns)
