-- ===== src/Logger/Laws.antt =====
-- What the two loggers write, and where they panic (logger/std.go, logger/logger.go).
use opendevops_codo_golang_s.Logger.Level.{Level, level_string}
use opendevops_codo_golang_s.Logger.Std.{print_pairs, std_log, StdLogger, padded, get_buffer}
use opendevops_codo_golang_s.Common.{
  Bytes, List, All, ◌≡◌, [], false, none, ◌++◌, arith, ◌↔◌, ◌∷◌, not, some, true, utf8, ap, refl,
  inl, inr, Bool-cases, append-nil,
}
use opendevops_codo_golang_s.Logger.Zap.{zap_log, zap_pairs}
use opendevops_codo_golang_s.Logger.Keyvals.{Fmt, is_odd}

module _ {V : Type 0} (f : Fmt V) where
  zap_pairs-eq-none : (kvs : List V) → (zap_pairs f kvs ≡ none) ↔ (is_odd kvs ≡ true)
  unfolding zap_pairs
  zap_pairs-eq-none [] = (λ h. cc, λ h. cc)
  zap_pairs-eq-none (k ∷ []) = (λ h. refl, λ h. refl)
  zap_pairs-eq-none (k ∷ v ∷ kvs) = ground (arith, zap_pairs-eq-none kvs)

  -- The logger of NewLogger panics exactly on an odd number of keys and values.
  pub zap_log-eq-none :
      (trace_id span_id : Bytes) (level : Level) (kvs : List V)
      → (zap_log f trace_id span_id level kvs ≡ none) ↔ (is_odd kvs ≡ true)
  unfolding zap_log
  zap_log-eq-none trace_id span_id level kvs = ground (arith, zap_pairs-eq-none kvs)

  -- What a call is to print behind the level: " key=value" for each pair, and a last key without a value
  -- beside the text KEYVALS UNPAIRED.
  abbrev pub pairs_text : List V → Bytes
  pairs_text [] = []
  pairs_text (k ∷ []) =
      utf8 " " ++ (f.verb_s k ++ (utf8 "=" ++ f.verb_v (f.of_text (utf8 "KEYVALS UNPAIRED"))))
  pairs_text (k ∷ v ∷ kvs) =
      utf8 " " ++ (f.verb_s k ++ (utf8 "=" ++ (f.verb_v v ++ pairs_text kvs)))

  is_odd-append : (kvs : List V) (v : V) → is_odd (kvs ++ v ∷ []) ≡ not (is_odd kvs)
  is_odd-append [] v = refl
  is_odd-append (k ∷ kvs) v = ap not (is_odd-append kvs v)

  -- The loop over an even number of values, and over an odd number with the padding.
  print_pairs_even : (kvs : List V) → is_odd kvs ≡ false → print_pairs f kvs ≡ some (pairs_text kvs)
  unfolding print_pairs
  print_pairs_even [] h = refl
  print_pairs_even (k ∷ []) h = absurd (cc)
  print_pairs_even (k ∷ v ∷ kvs) h = rw (print_pairs_even kvs (ground (arith, h))) refl

  print_pairs_odd :
      (kvs : List V)
      → is_odd kvs ≡ true
      → print_pairs f (kvs ++ f.of_text (utf8 "KEYVALS UNPAIRED") ∷ []) ≡ some (pairs_text kvs)
  unfolding print_pairs
  print_pairs_odd [] h = absurd (cc)
  print_pairs_odd (k ∷ []) h = rw (append-nil (f.verb_v (f.of_text (utf8 "KEYVALS UNPAIRED")))) refl
  print_pairs_odd (k ∷ v ∷ kvs) h = rw (print_pairs_odd kvs (ground (arith, h))) refl

  print_pairs-padded : (kvs : List V) → print_pairs f (padded f kvs) ≡ some (pairs_text kvs)
  print_pairs-padded kvs = elim (Bool-cases (is_odd kvs)) [
    | inl e ↦ rw e (print_pairs_odd kvs e)
    | inr e ↦ rw e (print_pairs_even kvs e)
  ]

  -- The buffers of the pool are empty.
  abbrev AllEmpty : List Bytes → Type 0
  AllEmpty = All (λ b. b ≡ [])

  get_buffer-AllEmpty :
      (pool : List Bytes)
      → AllEmpty pool
      → ((get_buffer f pool).0 ≡ []) × AllEmpty (get_buffer f pool).1
  get_buffer-AllEmpty [] h = (refl, tt)
  get_buffer-AllEmpty (b ∷ bs) h = h

  -- Where the buffers of the pool are empty and the logger is not the discarding one, a call of stdLogger with
  -- at least one key or value does not panic and writes one text: the level, " key=value" for each pair, where a
  -- last key without a value has KEYVALS UNPAIRED as its value, and a newline, with nothing from an earlier
  -- call; and the buffers of the pool are empty again.
  pub std_log_writes :
      (l : StdLogger) (level : Level) (k : V) (kvs : List V)
      → AllEmpty l.pool
      → l.is_discard ≡ false
      → ((std_log f l level (k ∷ kvs)).1
          ≡ some ((level_string level ++ (pairs_text (k ∷ kvs) ++ utf8 "\n")) ∷ []))
        × AllEmpty (std_log f l level (k ∷ kvs)).0.pool
  unfolding std_log
  std_log_writes l level k kvs h on =
      let (fresh, rest) = get_buffer-AllEmpty l.pool h in
      (rw (on, print_pairs-padded (k ∷ kvs), fresh) refl, rw on (refl, rest))
