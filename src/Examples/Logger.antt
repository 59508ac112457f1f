-- ===== src/Examples/Logger.antt =====
-- Tests of the models of the package logger.
use opendevops_codo_golang_s.Logger.Laws.{zap_log-eq-none, std_log_writes}
use opendevops_codo_golang_s.Common.{
  Bytes, [], false, utf8, ◌∷◌, ◌≡◌, none, some, true, refl, ◌++◌, ◌↔◌, All,
}
use opendevops_codo_golang_s.Logger.Std.{StdLogger, std_log}
use opendevops_codo_golang_s.Logger.Zap.{zap_log}
use opendevops_codo_golang_s.Go.Text.{is_ascii}
use opendevops_codo_golang_s.Logger.Level.{level_string, level_info}
use opendevops_codo_golang_s.Logger.Keyvals.{Fmt}

-- Values are texts already.
abbrev texts : Fmt Bytes
texts = record { verb_s = λ v. v; verb_v = λ v. v; of_text = λ s. s }

lower_ascii : is_ascii (utf8 "error") ≡ true
unfolding is_ascii
lower_ascii = refl

zap_log-eq-none_example :
    (zap_log texts [] [] level_info (utf8 "a" ∷ utf8 "1" ∷ utf8 "b" ∷ []) ≡ none) ↔ (true ≡ true)
zap_log-eq-none_example =
    zap_log-eq-none texts [] [] level_info (utf8 "a" ∷ utf8 "1" ∷ utf8 "b" ∷ [])

abbrev std : StdLogger
std = record { is_discard = false; pool = [] ∷ [] }

std_log_writes_example :
    ((std_log texts std level_info (utf8 "a" ∷ [])).1
      ≡ some ((level_string level_info ++ (utf8 " a=KEYVALS UNPAIRED" ++ utf8 "\n")) ∷ []))
    × All (λ b. b ≡ []) (std_log texts std level_info (utf8 "a" ∷ [])).0.pool
std_log_writes_example = std_log_writes texts std level_info (utf8 "a") [] (refl, tt) refl

unpaired :
    (std_log texts std level_info (utf8 "a" ∷ [])).1 ≡ some (utf8 "INFO a=KEYVALS UNPAIRED\n" ∷ [])
unfolding std_log level_string
unpaired = refl
