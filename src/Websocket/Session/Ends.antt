-- ===== src/Websocket/Session/Ends.antt =====
-- When the two loops of a websocket connection end.
use opendevops_codo_golang_s.Websocket.Session.Run.{
  clash, exhausted, flatten, run, turn_exhausted, Move, one, flatten-append, turn_failures, both,
  failures,
}
use opendevops_codo_golang_s.Websocket.Write.{canceled, Reply, write_round, response, failed}
use opendevops_codo_golang_s.Websocket.{Applied, Incoming, Event, read_round}
use opendevops_codo_golang_s.Common.{
  ◌∷◌, Bytes, ◌⊎◌, Option, Bool, List, false, ◌≡◌, [], refl, true, ℕ, ◌≤◌, arith, length, ◌+◌, ap,
  subst, length-append, sym, map, inr, length-map, ◌++◌, some, ◌∙◌,
}
use opendevops_codo_golang_s.Websocket.Session.{
  Session, Turn, Stage, turns, alone, grouped, waited, testing, busy, ended, tested, is_ended,
  reads, replies, reader_tests, closes, writer_tests, read_turn, request_done, write_turn,
  close_turn,
}

-- How far a loop on a cancelled context is from its end, and how much it may still send.
abbrev rank : Stage → ℕ
rank ended = 0
rank testing = 1
rank busy = 2

abbrev more : Stage → ℕ
more ended = 0
more testing = 0
more busy = 1

module _ {R T M : Type 0} (decode : Bytes → R ⊎ Bytes) (validate : R → Option Bytes)
    (apply : R → Applied) (encode : T → M) (cancels : Bool) where
  -- The context is cancelled and the read loop has ended.
  abbrev Closing : Session R M → Type 0
  Closing s = (s.cancelled ≡ true) × (s.reader ≡ ended)

  -- What a turn brings about in such a session.
  abbrev Closer : Session R M → Session R M → Type 0
  Closer s s' =
      Closing s'
      × (rank s'.writer ≤ rank s.writer)
      × (length s'.out + more s'.writer ≤ length s.out + more s.writer)

  write_round-length : (r : Reply T) → length (write_round encode r) ≤ 1
  unfolding write_round
  write_round-length (response t) = omega arith
  write_round-length canceled = omega arith
  write_round-length (failed e t) = omega arith

  read_turn-ended :
      (i : Incoming) (stage : Stage) (s : Session R M)
      → stage ≡ ended
      → read_turn decode validate apply encode cancels i stage s ≡ s
  read_turn-ended i testing s h = refl
  read_turn-ended i busy s h = absurd (cc)
  read_turn-ended i ended s h = refl

  close_turn-ended :
      (stage : Stage) (s : Session R M)
      → stage ≡ ended
      → close_turn decode validate apply encode cancels stage s ≡ s
  close_turn-ended testing s h = refl
  close_turn-ended busy s h = absurd (cc)
  close_turn-ended ended s h = refl

  tested-ended : (c : Bool) (stage : Stage) → stage ≡ ended → tested c stage ≡ ended
  tested-ended c testing h = absurd (cc)
  tested-ended c busy h = absurd (cc)
  tested-ended true ended h = refl
  tested-ended false ended h = refl

  tested-true :
      (stage : Stage)
      → (rank (tested true stage) ≤ rank stage) × (more (tested true stage) ≤ more stage)
  tested-true testing = (omega arith, omega arith)
  tested-true busy = (omega arith, omega arith)
  tested-true ended = (omega arith, omega arith)

  write_turn-Closer :
      (r : Reply T) (stage : Stage) (s : Session R M)
      → s.writer ≡ stage
      → Closing s
      → Closer s (write_turn decode validate apply encode cancels r stage s)
        × (rank (write_turn decode validate apply encode cancels r stage s).writer ≤ 1)
  write_turn-Closer r testing s e h = ((h, omega arith, omega arith), omega (arith, ap rank e))
  write_turn-Closer r busy s e h = (
    (
      h,
      omega (arith, ap rank e),
      omega (
        arith,
        ap more e,
        write_round-length r,
        length-append s.out (map inr (write_round encode r)),
        length-map {0, 0} {B = Event R ⊎ M} (write_round encode r) inr,
      ),
    ),
    omega arith,
  )
  write_turn-Closer r ended s e h = ((h, omega arith, omega arith), omega (arith, ap rank e))

  alone-Closer :
      (t : Turn T) (s : Session R M)
      → Closing s
      → Closer s (alone decode validate apply encode cancels t s)
  unfolding alone
  alone-Closer reader_tests s (c, e) =
      ((c, tested-ended s.cancelled s.reader e), omega arith, omega arith)
  alone-Closer (reads i) s (c, e) =
      subst (Closer s) (sym (read_turn-ended i s.reader s e)) ((c, e), omega arith, omega arith)
  alone-Closer closes s (c, e) =
      subst (Closer s) (sym (close_turn-ended s.reader s e)) ((c, e), omega arith, omega arith)
  alone-Closer writer_tests s (c, e) =
      let (r, m) = tested-true s.writer in ((c, e), rw c r, rw c (omega (arith, m)))
  alone-Closer (replies r) s h = (write_turn-Closer r s.writer s refl h).0
  alone-Closer request_done s (c, e) = ((refl, e), omega arith, omega arith)

  grouped-Closer :
      (s s' : Session R M)
      → Closer s s'
      → Closer s (grouped decode validate apply encode cancels s')
  unfolding grouped
  grouped-Closer s s' ((c, e), r, m) = ((rw c refl, e), r, m)

  abbrev after : List (Turn T) → Session R M → Session R M
  after ts s = turns decode validate apply encode cancels ts s

  turns-Closer : (ts : List (Turn T)) (s : Session R M) → Closing s → Closer s (after ts s)
  unfolding turns
  turns-Closer [] s h = (h, omega arith, omega arith)
  turns-Closer (t ∷ ts) s h =
      let (h1, r1, m1) =
        grouped-Closer s (alone decode validate apply encode cancels t s) (alone-Closer t s h) in
      let (h2, r2, m2) = turns-Closer ts _ h1 in (h2, omega (arith, r1, r2), omega (arith, m1, m2))

  turns-append :
      (ts us : List (Turn T)) (s : Session R M) → after (ts ++ us) s ≡ after us (after ts s)
  unfolding turns
  turns-append [] us s = refl
  turns-append (t ∷ ts) us s = turns-append ts us _

  -- Behind a return of Reply, the write loop is at its test of the context, or has ended.
  replies-rank :
      (r : Reply T) (us : List (Turn T)) (s : Session R M)
      → Closing s
      → Closing (after (replies r ∷ us) s) × (rank (after (replies r ∷ us) s).writer ≤ 1)
  unfolding turns alone grouped
  replies-rank r us s h =
      let (closer, low) = write_turn-Closer r s.writer s refl h in
      let (h1, r1, m1) = grouped-Closer s _ closer in
      let (h2, r2, m2) = turns-Closer us _ h1 in (h2, omega (arith, low, r2))

  rank-zero : (stage : Stage) → rank stage ≤ 0 → is_ended stage ≡ true
  rank-zero testing h = absurd (omega arith)
  rank-zero busy h = absurd (omega arith)
  rank-zero ended h = refl

  tested-rank : (stage : Stage) → rank stage ≤ 1 → rank (tested true stage) ≤ 0
  tested-rank testing h = omega arith
  tested-rank busy h = absurd (omega arith)
  tested-rank ended h = omega arith

  -- And at its next test it ends.
  tests-waited :
      (us : List (Turn T)) (s : Session R M)
      → Closing s
      → rank s.writer ≤ 1
      → waited (after (writer_tests ∷ us) s) ≡ true
  unfolding turns alone grouped
  tests-waited us s (c, e) low =
      let s1 =
        grouped decode validate apply encode cancels
          (alone decode validate apply encode cancels writer_tests s) in
      let closer : Closer s s1 = grouped-Closer s _ (alone-Closer writer_tests s (c, e)) in
      let ((c2, e2), r2, m2) = turns-Closer us s1 closer.0 in
      let gone : rank (tested s.cancelled s.writer) ≤ 0 = rw c (tested-rank s.writer low) in
      rw e2 (rank-zero _ (omega (arith, gone, r2)))

  more-le : (stage : Stage) → more stage ≤ 1
  more-le testing = omega arith
  more-le busy = omega arith
  more-le ended = omega arith

  closed-Closing :
      (stage : Stage) (s : Session R M)
      → stage ≡ busy
      → let s1 = close_turn decode validate apply encode cancels stage s in
        ((s1.cancelled ≡ true) × (s1.reader ≡ ended))
        × (length s1.out + more s1.writer ≤ length s.out + 1)
  unfolding read_round
  closed-Closing testing s h = absurd (cc)
  closed-Closing busy s h = ((refl, refl), omega (arith, length-append s.out [], more-le s.writer))
  closed-Closing ended s h = absurd (cc)

  turns_closes :
      (s : Session R M) (r : Reply T) (before between later : List (Turn T))
      → s.reader ≡ busy
      → let done =
          turns decode validate apply encode cancels
            (closes ∷ before ++ (replies r ∷ between ++ writer_tests ∷ later))
            s in
        (waited done ≡ true) × (length done.out ≤ length s.out + 1)
  unfolding turns alone grouped
  turns_closes s r before between later h =
      let s0 = close_turn decode validate apply encode cancels s.reader s in
      let (h0, m0) = closed-Closing s.reader s h in
      let s1 = grouped decode validate apply encode cancels s0 in
      let h1 : Closing s1 = (rw h0.0 refl, h0.1) in
      let (h2, r2, m2) = turns-Closer before s1 h1 in
      let rest = replies r ∷ between ++ writer_tests ∷ later in
      let (h3, low) = replies-rank r between (after before s1) h2 in
      let (h4, r4, m4) = turns-Closer rest (after before s1) h2 in
      let path = turns-append before rest s1 in
      let path2 = turns-append (replies r ∷ between) (writer_tests ∷ later) (after before s1) in
      subst (λ d. (waited d ≡ true) × (length d.out ≤ length s.out + 1)) (sym path)
        (
          subst (λ d. waited d ≡ true) (sym path2) (tests-waited later _ h3 low),
          omega (arith, m0, m2, m4),
        )

  exhausted-ended :
      (patience : ℕ) (i : Incoming) (stage : Stage) (n : ℕ)
      → stage ≡ ended
      → exhausted patience i stage n ≡ false
  exhausted-ended patience i testing n h = ground arith
  exhausted-ended patience i busy n h = absurd (cc)
  exhausted-ended patience i ended n h = ground arith

  turn_exhausted-ended :
      (patience : ℕ) (t : Turn T) (stage : Stage) (n : ℕ)
      → stage ≡ ended
      → turn_exhausted patience t stage n ≡ false
  turn_exhausted-ended patience reader_tests stage n h = refl
  turn_exhausted-ended patience (reads i) stage n h = exhausted-ended patience i stage n h
  turn_exhausted-ended patience closes stage n h = refl
  turn_exhausted-ended patience writer_tests stage n h = refl
  turn_exhausted-ended patience (replies r) stage n h = refl
  turn_exhausted-ended patience request_done stage n h = refl

  clash-Closing :
      (patience : ℕ) (i : Incoming) (r : Reply T) (s : Session R M)
      → s.reader ≡ ended
      → clash decode validate apply encode cancels patience i r s ≡ false
  clash-Closing patience i r s e = rw e refl

  -- Behind the end of the read loop the connection does not panic.
  run-Closing :
      (patience : ℕ) (ms : List (Move T)) (n : ℕ) (s : Session R M)
      → Closing s
      → run decode validate apply encode cancels patience ms n s ≡ some (after (flatten ms) s)
  unfolding run flatten turns
  run-Closing patience [] n s h = refl
  run-Closing patience (one t ∷ ms) n s h =
      rw (turn_exhausted-ended patience t s.reader n h.1)
        (run-Closing patience ms (turn_failures t s.reader n) _ (turns-Closer (t ∷ []) s h).0)
  run-Closing patience (both i r ∷ ms) n s h =
      rw (exhausted-ended patience i s.reader n h.1, clash-Closing patience i r s h.1)
        (run-Closing patience ms (failures i s.reader n) _
          (turns-Closer (reads i ∷ replies r ∷ []) s h).0)

  flatten-closing :
      (before between later : List (Move T)) (r : Reply T)
      → flatten (before ++ (one (replies r) ∷ between ++ one writer_tests ∷ later))
        ≡ flatten before ++ (replies r ∷ flatten between ++ writer_tests ∷ flatten later)
  unfolding flatten
  flatten-closing before between later r =
      flatten-append before (one (replies r) ∷ between ++ one writer_tests ∷ later)
      ∙ ap (λ ts. flatten before ++ (replies r ∷ ts))
          (flatten-append between (one writer_tests ∷ later))

  -- A peer that sends a close frame while ReadMessage runs ends the connection, whatever the errgroup does: the
  -- connection does not panic from there on; wherever the write loop stands, it sends at most one message more, and
  -- once Reply has returned and the write loop has tested its context behind that, both loops have ended, whatever
  -- else happens before, between and after.
  pub run_closes :
      (patience misses : ℕ) (s : Session R M) (r : Reply T) (before between later : List (Move T))
      → s.reader ≡ busy
      → (done : Session R M) × (run decode validate apply encode cancels patience
            (one closes ∷ before ++ (one (replies r) ∷ between ++ one writer_tests ∷ later))
            misses
            s
          ≡ some done)
        × (waited done ≡ true)
        × (length done.out ≤ length s.out + 1)
  unfolding run turns alone grouped
  run_closes patience misses s r before between later h =
      let (h0, m0) = closed-Closing s.reader s h in
      let s1 =
        grouped decode validate apply encode cancels
          (close_turn decode validate apply encode cancels s.reader s) in
      let (ends, few) = turns_closes s r (flatten before) (flatten between) (flatten later) h in
      (
        _,
        run-Closing patience (before ++ (one (replies r) ∷ between ++ one writer_tests ∷ later))
              misses s1 (rw h0.0 refl, h0.1)
            ∙ ap (λ ts. some (after ts s1)) (flatten-closing before between later r),
        ends,
        few,
      )
