-- ===== src/Logger/Helper.antt =====
-- Helper of logger/helper.go and the package functions of logger/global.go. A logger is what a call
-- of its Log does to a state W, `none` being a panic; a Fatal call ends the process with code 1.
use opendevops_codo_golang_s.Logger.Keyvals.{Fmt}
use opendevops_codo_golang_s.Logger.Level.{
  Level, level_debug, level_info, level_warn, level_error, level_fatal,
}
use opendevops_codo_golang_s.Common.{Bytes, ℕ, Bool, List, ◌∷◌, [], false, utf8, true, foldl}

data Ended : Type 0 where
  returned panicked : Ended
  exited : ℕ → Ended

abbrev pub Logger : Type 0 → Type 0 → Type 0
Logger V W = Level → List V → W → W × Bool

record Helper (V W : Type 0) : Type 0 where
  pub logger : Logger V W
  pub msg_key : Bytes
  pub sprint : List V → Bytes
  pub sprintf : Bytes → List V → Bytes

data Severity : Type 0 where
  debug info warn error fatal : Severity

-- The arguments of Debug, of Debugf and of Debugw, and so for the other severities.
data Call (V : Type 0) : Type 0 where
  args : List V → Call V
  format : Bytes → List V → Call V
  pairs : List V → Call V

unfoldable severity_level : Severity → Level
severity_level debug = level_debug
severity_level info = level_info
severity_level warn = level_warn
severity_level error = level_error
severity_level fatal = level_fatal

-- os.Exit(1) behind a Fatal call.
abbrev ended : Severity → Bool → Ended
ended s false = panicked
ended fatal true = exited 1
ended _ true = returned

module _ {V W : Type 0} (f : Fmt V) where
  unfoldable call_keyvals : Helper V W → Call V → List V
  call_keyvals h (args a) = f.of_text h.msg_key ∷ f.of_text (h.sprint a) ∷ []
  call_keyvals h (format s a) = f.of_text h.msg_key ∷ f.of_text (h.sprintf s a) ∷ []
  call_keyvals h (pairs kvs) = kvs

  -- The fifteen methods of Helper.
  unfoldable helper_log : Helper V W → Severity → Call V → W → W × Ended
  unfolding call_keyvals severity_level
  helper_log h s c w =
      let (w', fine) = h.logger (severity_level s) (call_keyvals h c) w in (w', ended s fine)

  -- NewHelper, with its options.
  unfoldable new_helper :
      (sprint : List V → Bytes) (sprintf : Bytes → List V → Bytes)
      → Logger V W
      → List (Helper V W → Helper V W)
      → Helper V W
  new_helper sprint sprintf logger opts =
      foldl (λ h o. o h)
        (record { logger = logger; msg_key = utf8 "msg"; sprint = sprint; sprintf = sprintf }) opts

  -- The package functions: the same calls on the logger that SetLogger stored last.
  unfoldable global_log :
      (sprint : List V → Bytes) (sprintf : Bytes → List V → Bytes) (current : Logger V W)
      → Severity
      → Call V
      → W
      → W × Ended
  unfolding helper_log
  global_log sprint sprintf current s c w =
      helper_log
        (record { logger = current; msg_key = utf8 "msg"; sprint = sprint; sprintf = sprintf }) s c
        w
