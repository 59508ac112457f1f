-- ===== src/Cas.antt =====
-- tools/cascmd: MemoryImpl.CAS of memory.go on its map, and RedisImpl.CAS of cas_cmd.go as the commands
-- that it sends, with the store of the server as a parameter.
pub mod Laws
pub mod Race
pub mod Alone
pub mod Command
pub mod Clients
pub mod Lock
use opendevops_codo_golang_s.Go.Dict.{index, remove, insert, bytes_eq}
use opendevops_codo_golang_s.Common.{
  Bytes, List, Option, [], Bool, if◌then◌else◌, some, none, not, same, ◌∷◌, true, false,
}

pub record MemoryImpl : Type 0 where
  pub m : List (Bytes × Bytes)

-- NewMemoryImpl
abbrev new_memory_impl : MemoryImpl
new_memory_impl = record { m = [] }

-- MemoryImpl.CAS under its mutex.
unfoldable pub cas : MemoryImpl → (key src dst : Bytes) → MemoryImpl × Bool
cas x key src dst =
    if not (same (index x.m key) src)
    then (x, false)
    else if same dst []
    then (record { m = remove key x.m }, true)
    else (record { m = insert key dst x.m }, true)

-- The arguments of one call.
pub record Request : Type 0 where
  pub key : Bytes
  pub src : Bytes
  pub dst : Bytes

-- Where a call of RedisImpl.CAS stands: before its GET, with the answer of the GET, or done.
pub data Phase : Type 0 where
  watching : Phase
  seen : Option Bytes → Phase
  finished : Bool → Phase

-- Result() of a missing key: the empty string, beside redis.Nil.
unfoldable pub current_value : Option Bytes → Bytes
current_value none = []
current_value (some v) = v

module _ {S : Type 0} (get : S → Bytes → Option Bytes) (set : Bytes → Bytes → S → S)
    (del : Bytes → S → S) where
  -- The write: DEL on the client itself, SET on the pipeline. Neither is sent between MULTI and EXEC.
  unfoldable pub write : Request → S → S
  write q s = if same q.dst [] then del q.key s else set q.key q.dst s

  -- What a call does next, where no command fails.
  unfoldable pub redis_step : Request → S × Phase → S × Phase
  unfolding write current_value
  redis_step q (s, watching) = (s, seen (get s q.key))
  redis_step q (s, seen v) =
      if same (current_value v) q.src then (write q s, finished true) else (s, finished false)
  redis_step q (s, finished b) = (s, finished b)

  -- Two calls on one store, each a client's; the list says whose step is next.
  unfoldable pub interleave : Request → Request → List Bool → S × Phase × Phase → S × Phase × Phase
  unfolding redis_step
  interleave p q [] state = state
  interleave p q (true ∷ turns) (s, a, b) =
      let (s', a') = redis_step p (s, a) in interleave p q turns (s', a', b)
  interleave p q (false ∷ turns) (s, a, b) =
      let (s', b') = redis_step q (s, b) in interleave p q turns (s', a, b')
