-- ===== src/Logger/Std.antt =====
-- stdLogger of logger/std.go. A call returns the buffers of the pool, what it wrote, and `none` where
-- it panics; the buffers are as they stand after the deferred calls.
use mathlib.Core.Option
use opendevops_codo_golang_s.Logger.Level.{Level, level_string}
use opendevops_codo_golang_s.Logger.Keyvals.{Fmt, is_odd}
use opendevops_codo_golang_s.Common.{
  Bool, List, Bytes, Option, if◌then◌else◌, some, ◌∷◌, [], none, ◌++◌, utf8,
}

pub record StdLogger : Type 0 where
  pub is_discard : Bool
  pub pool : List Bytes

module _ {V : Type 0} (f : Fmt V) where
  -- The loop over pairs; keyvals[i+1] panics behind the end.
  unfoldable pub print_pairs : List V → Option Bytes
  print_pairs [] = some []
  print_pairs (k ∷ []) = none
  print_pairs (k ∷ v ∷ kvs) =
      Option.map (λ rest. utf8 " " ++ (f.verb_s k ++ (utf8 "=" ++ (f.verb_v v ++ rest))))
        (print_pairs kvs)

  abbrev pub padded : List V → List V
  padded kvs = if is_odd kvs then kvs ++ f.of_text (utf8 "KEYVALS UNPAIRED") ∷ [] else kvs

  -- pool.Get: a buffer of the pool, or a new one.
  abbrev pub get_buffer : List Bytes → Bytes × List Bytes
  get_buffer [] = ([], [])
  get_buffer (b ∷ bs) = (b, bs)

  -- stdLogger.Log: the writes are one or none.
  unfoldable pub std_log : StdLogger → Level → List V → StdLogger × Option (List Bytes)
  unfolding print_pairs
  std_log l level [] = (l, some [])
  std_log l level (k ∷ kvs) = if l.is_discard then (l, some []) else (
    record l { pool = [] ∷ (get_buffer l.pool).1 },
    Option.map
        (λ pairs. ((get_buffer l.pool).0 ++ (level_string level ++ (pairs ++ utf8 "\n"))) ∷ [])
        (print_pairs (padded (k ∷ kvs))),
  )
