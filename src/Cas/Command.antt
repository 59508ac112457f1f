-- ===== src/Cas/Command.antt =====
-- What both implementations of tools/cascmd promise: the comment of CAS in cas_cmd.go as an interface,
-- which MemoryImpl fills, and RedisImpl where its calls run one after the other.
use opendevops_codo_golang_s.Cas.{MemoryImpl, Phase, cas, watching, seen, finished, current_value}
use opendevops_codo_golang_s.Cas.Laws.{cas_on, cas-index}
use opendevops_codo_golang_s.Cas.Alone.{alone, alone-cas_on}
use opendevops_codo_golang_s.Go.Dict.{index}
use opendevops_codo_golang_s.Common.{
  Bytes, Bool, ◌≡◌, false, Option, if◌then◌else◌, same, some, none, ap, refl,
}

-- CASCommand of try_lock, with what CAS is to do: the values are those of compare-and-swap.
pub record CasCommand : Type 1 where
  pub State : Type 0
  pub swap : State → (key src dst : Bytes) → State × Bool
  pub value_of : State → Bytes → Bytes
  pub swap-value_of :
      (s : State) (key src dst at : Bytes)
      → value_of (swap s key src dst).0 at ≡ (cas_on (value_of s) key src dst).0 at
  pub swap_answer :
      (s : State) (key src dst : Bytes)
      → (swap s key src dst).1 ≡ (cas_on (value_of s) key src dst).1

pub memory-value_of :
    (x : MemoryImpl) (key src dst at : Bytes)
    → index (cas x key src dst).0.m at ≡ (cas_on (index x.m) key src dst).0 at
memory-value_of x key src dst at = (cas-index x key src dst at).0

pub memory_answer :
    (x : MemoryImpl) (key src dst : Bytes)
    → (cas x key src dst).1 ≡ (cas_on (index x.m) key src dst).1
memory_answer x key src dst = (cas-index x key src dst key).1

-- MemoryImpl
abbrev pub memory_command : CasCommand
memory_command = record {
  State = MemoryImpl;
  swap = cas;
  value_of = λ x. index x.m;
  swap-value_of = memory-value_of;
  swap_answer = memory_answer;
}

-- `err == nil` of a call that has run; a call of RedisImpl that has not ended has no answer yet.
abbrev answered : Phase → Bool
answered watching = false
answered (seen v) = false
answered (finished b) = b

module _ {S : Type 0} (get : S → Bytes → Option Bytes) (set : Bytes → Bytes → S → S)
    (del : Bytes → S → S)
    (get-set : (s : S) (k v at : Bytes)
      → get (set k v s) at ≡ (if same k at then some v else get s at))
    (get-del : (s : S) (k at : Bytes)
      → get (del k s) at ≡ (if same k at then none else get s at)) where
  -- RedisImpl where no two calls overlap.
  abbrev redis_swap : S → (key src dst : Bytes) → S × Bool
  redis_swap s key src dst =
      let (t, phase) =
        alone get set del get-set get-del (record { key = key; src = src; dst = dst }) s in
      (t, answered phase)

  redis-value_of :
      (s : S) (key src dst at : Bytes)
      → current_value (get (redis_swap s key src dst).0 at)
        ≡ (cas_on (λ k. current_value (get s k)) key src dst).0 at
  redis-value_of s key src dst at =
      (alone-cas_on get set del get-set get-del (record { key = key; src = src; dst = dst }) s
        (λ k. current_value (get s k)) at (λ k. refl)).1

  redis_answer :
      (s : S) (key src dst : Bytes)
      → (redis_swap s key src dst).1 ≡ (cas_on (λ k. current_value (get s k)) key src dst).1
  redis_answer s key src dst =
      ap answered
        (alone-cas_on get set del get-set get-del (record { key = key; src = src; dst = dst }) s
          (λ k. current_value (get s k)) key (λ k. refl)).0

  abbrev redis_command : CasCommand
  redis_command = record {
    State = S;
    swap = redis_swap;
    value_of = λ s k. current_value (get s k);
    swap-value_of = redis-value_of;
    swap_answer = redis_answer;
  }
