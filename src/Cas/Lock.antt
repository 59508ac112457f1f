-- ===== src/Cas/Lock.antt =====
-- Clients.antt for MemoryImpl of tools/cascmd/memory.go.
use opendevops_codo_golang_s.Go.Dict.{index}
use opendevops_codo_golang_s.Cas.Command.{memory_command}
use opendevops_codo_golang_s.Cas.{MemoryImpl}
use opendevops_codo_golang_s.Cas.Clients.{
  Clients, Reach, acquired, released, mutual_exclusion, no_deadlock,
}
use opendevops_codo_golang_s.Common.{Bytes, ℕ, ◌≡◌, ◌≢◌, [], true, false}

module _ (key : Bytes) (own : ℕ → Bytes) (distinct : (i j : ℕ) → own i ≡ own j → i ≡ j)
    (filled : (i : ℕ) → own i ≢ []) {s : Clients MemoryImpl}
    (r : Reach memory_command key own s) where
  -- Clients that use one key of a MemoryImpl as a lock, each with a value of its own that is not empty, never
  -- have it at the same time: in every state that their calls of CAS reach from one where the lock is free,
  -- calls of anybody on other keys between them, at most one client believes to have it.
  pub lock_exclusive : (i j : ℕ) → s.holds i ≡ true → s.holds j ≡ true → i ≡ j
  lock_exclusive = mutual_exclusion memory_command key own distinct filled r

  -- Such a lock is never lost: in every state that clients of a MemoryImpl reach, each with a value of its own that
  -- is not empty, from one where the lock is free, the client that has it gives it back by one call, which leaves
  -- the key empty, and where no client has it, whichever asks next gets it.
  pub lock_live :
      (i : ℕ)
      → (s.holds i ≡ true
          → ((released memory_command key own i s).holds i ≡ false)
            × (index (released memory_command key own i s).store.m key ≡ []))
        × (((j : ℕ) → s.holds j ≡ false) → (acquired memory_command key own i s).holds i ≡ true)
  lock_live i = no_deadlock memory_command key own distinct filled i r
