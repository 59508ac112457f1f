-- ===== src/Examples/Sessions.antt =====
-- The two loops of a websocket connection on a few turns: requests are bytes, and a request that is empty
-- fails the validation.
use opendevops_codo_golang_s.Websocket.Session.Run.{Move, flatten, run, both, one}
use opendevops_codo_golang_s.Common.{
  ◌∷◌, Bytes, List, ℕ, Option, [], false, inl, some, ◌++◌, ◌≡◌, refl, true, utf8, length, none, ◌≤◌,
  ◌+◌, All,
}
use opendevops_codo_golang_s.Websocket.Session.{
  Session, Turn, reader_tests, reads, closes, writer_tests, replies, turns, opened, busy, waited,
  alone, grouped,
}
use opendevops_codo_golang_s.Websocket.Session.Ends.{run_closes}
use opendevops_codo_golang_s.Websocket.Session.Quiet.{run_quiet, IsQuiet}
use opendevops_codo_golang_s.Websocket.{Applied, done, message, read_round}
use opendevops_codo_golang_s.Websocket.Write.{response, write_round}

abbrev not_empty : Bytes → Option Bytes
not_empty [] = some (utf8 "empty")
not_empty (c ∷ s) = none

abbrev take_all : Bytes → Applied
take_all r = done

-- The read loop leaves on an empty request; the write loop goes on.
abbrev left_alone : List (Turn ℕ)
left_alone =
    reader_tests
    ∷ reads (message [])
    ∷ writer_tests
    ∷ replies (response 1)
    ∷ writer_tests
    ∷ replies (response 2)
    ∷ []

left_alone_sent :
    length
      (turns {M = ℕ}
        (λ (s : Bytes). inl s)
        not_empty
        take_all
        (λ (t : ℕ). t)
        false
        left_alone
        opened).out
    ≡ 3
unfolding turns alone grouped read_round write_round
left_alone_sent = refl

-- The same as a run, in which the first reply comes while the read loop reads.
abbrev left_moves : List (Move ℕ)
left_moves =
    one reader_tests
    ∷ one (reads (message []))
    ∷ one writer_tests
    ∷ one (replies (response 1))
    ∷ one writer_tests
    ∷ one (replies (response 2))
    ∷ []

abbrev left_session : Session Bytes ℕ
left_session =
    turns (λ (s : Bytes). inl s) not_empty take_all (λ (t : ℕ). t) false left_alone opened

left_runs :
    run (λ (s : Bytes). inl s) not_empty take_all (λ (t : ℕ). t) false 1000 left_moves 0 opened
    ≡ some left_session
unfolding run turns alone grouped read_round write_round
left_runs = refl

left_moves-IsQuiet : All IsQuiet (flatten left_moves)
unfolding flatten
left_moves-IsQuiet = (tt, (tt, (tt, (tt, (tt, (tt, tt))))))

run_quiet_example : (waited left_session ≡ false) × (left_session.cancelled ≡ false)
run_quiet_example =
    run_quiet (λ (s : Bytes). inl s) not_empty take_all (λ (t : ℕ). t) 1000 0 left_moves opened
      left_session left_moves-IsQuiet refl refl left_runs

-- Both loops behind their first tests.
abbrev both_busy : Session Bytes ℕ
both_busy = record { reader = busy; writer = busy; cancelled = false; out = [] }

run_closes_example :
    (done : Session Bytes ℕ) × (run
        (λ (s : Bytes). inl s)
        not_empty
        take_all
        (λ (t : ℕ). t)
        false
        1000
        (one closes ∷ both (message []) (response 7) ∷ []
          ++ (one (replies (response 1)) ∷ [] ++ one writer_tests ∷ []))
        0
        both_busy
      ≡ some done)
    × (waited done ≡ true)
    × (length done.out ≤ length both_busy.out + 1)
run_closes_example =
    run_closes (λ (s : Bytes). inl s) not_empty take_all (λ (t : ℕ). t) false 1000 0 both_busy
      (response 1) (both (message []) (response 7) ∷ []) [] [] refl

-- A reply that meets the answer to a request that fails the validation.
clashing :
    run
      (λ (s : Bytes). inl s)
      not_empty
      take_all
      (λ (t : ℕ). t)
      false
      1000
      (both (message []) (response 7) ∷ [])
      0
      both_busy
    ≡ none
unfolding run turns alone grouped read_round write_round
clashing = refl
