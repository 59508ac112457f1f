-- ===== src/Examples/Cas.antt =====
-- Tests of the model of tools/cascmd.
use opendevops_codo_golang_s.Cas.Lock.{lock_exclusive, lock_live}
use opendevops_codo_golang_s.Cas.Command.{memory_command}
use opendevops_codo_golang_s.Cas.Clients.{Clients, Reach, acquired, released, next, free, acquire}
use opendevops_codo_golang_s.Cas.Alone.{Holds, alone, alone-cas}
use opendevops_codo_golang_s.Cas.Race.{both, interleave_crossed}
use opendevops_codo_golang_s.Go.Dict.{
  index, insert, lookup, bytes_eq, lookup-insert, remove, lookup-remove,
}
use opendevops_codo_golang_s.Cas.{MemoryImpl, cas, current_value, finished, Request}
use opendevops_codo_golang_s.Common.{
  Bytes, List, Option, [], utf8, ◌∷◌, ◌≡◌, refl, some, true, false, ◌∙◌, same_refl, arith,
  if◌then◌else◌, none, same, ℕ, ◌+◌, ◌≢◌,
}

abbrev lock : Bytes
lock = utf8 "lock"

abbrev one_key : MemoryImpl
one_key = record { m = (utf8 "other", utf8 "x") ∷ [] }

deletes : (cas (record { m = (lock, utf8 "me") ∷ [] }) lock (utf8 "me") []).0.m ≡ []
unfolding cas index remove
deletes = refl

lock_is_free : index one_key.m lock ≡ []
unfolding index lookup
lock_is_free = refl

abbrev Store : Type 0
Store = List (Bytes × Bytes)

abbrev get_key : Store → Bytes → Option Bytes
get_key s k = lookup k s

get_key-insert : (s : Store) (k v : Bytes) → get_key (insert k v s) k ≡ some v
get_key-insert s k v = lookup-insert s k k v ∙ rw (same_refl k) refl

no_value : current_value (get_key [] lock) ≡ []
unfolding current_value lookup
no_value = refl

interleave_crossed_example :
    both get_key insert remove get_key-insert
      (record { key = lock; src = []; dst = utf8 "me" })
      (record { key = lock; src = []; dst = utf8 "you" })
      (true ∷ false ∷ true ∷ false ∷ [])
      []
    ≡ (insert lock (utf8 "you") (insert lock (utf8 "me") []), finished true, finished true)
interleave_crossed_example =
    interleave_crossed get_key insert remove get_key-insert [] lock (utf8 "me") (utf8 "you")
      no_value (ground arith) (ground arith)

abbrev by_me : Request
by_me = record { key = lock; src = []; dst = utf8 "me" }

get_key-both :
    (s : Store) (k v at : Bytes)
    → get_key (insert k v s) at ≡ (if same k at then some v else get_key s at)
get_key-both s k v at = lookup-insert s k at v

get_key-remove :
    (s : Store) (k at : Bytes)
    → get_key (remove k s) at ≡ (if same k at then none else get_key s at)
get_key-remove s k at = lookup-remove s k at

same_store : Holds get_key insert remove get_key-both get_key-remove one_key.m one_key
unfolding current_value index
same_store at = elim (lookup at one_key.m) [ none ↦ refl | some v ↦ refl ]

alone-cas_example :
    ((alone get_key insert remove get_key-both get_key-remove by_me one_key.m).1
      ≡ finished (cas one_key lock [] (utf8 "me")).1)
    × Holds get_key insert remove get_key-both get_key-remove
        (alone get_key insert remove get_key-both get_key-remove by_me one_key.m).0
        (cas one_key lock [] (utf8 "me")).0
alone-cas_example =
    alone-cas get_key insert remove get_key-both get_key-remove by_me one_key.m one_key same_store

abbrev numbered : ℕ → Bytes
numbered i = (i + 1) ∷ []

numbered_distinct : (i j : ℕ) → numbered i ≡ numbered j → i ≡ j
numbered_distinct i j e = ground arith

numbered_filled : (i : ℕ) → numbered i ≢ []
numbered_filled i e = absurd (cc)

-- Client 1 asks, then client 2, while client 1 has the lock.
abbrev asked_once : Clients MemoryImpl
asked_once =
    acquired memory_command lock numbered 1 (record { store = one_key; holds = λ i. false })

abbrev asked_twice : Clients MemoryImpl
asked_twice = acquired memory_command lock numbered 2 asked_once

first_has : (asked_twice.holds 1 ≡ true) × (asked_twice.holds 2 ≡ false)
unfolding acquired cas index lookup insert
first_has = (refl, refl)

not_yet : asked_once.holds 2 ≡ false
unfolding acquired cas index lookup insert
not_yet = refl

asked : Reach memory_command lock numbered asked_twice
asked = next (next (free one_key lock_is_free) (acquire _ 1 refl)) (acquire _ 2 not_yet)

lock_exclusive_example : ◌≡◌ {A = ℕ} 1 1
lock_exclusive_example =
    lock_exclusive lock numbered numbered_distinct numbered_filled asked 1 1 first_has.0 first_has.0

lock_live_example :
    (asked_twice.holds 1 ≡ true
      → ((released memory_command lock numbered 1 asked_twice).holds 1 ≡ false)
        × (index (released memory_command lock numbered 1 asked_twice).store.m lock ≡ []))
    × (((j : ℕ) → asked_twice.holds j ≡ false)
        → (acquired memory_command lock numbered 1 asked_twice).holds 1 ≡ true)
lock_live_example = lock_live lock numbered numbered_distinct numbered_filled asked 1
