-- ===== src/Logger/Zap.antt =====
-- The logger that NewLogger of logger/logger.go returns, over zap; its configuration from the
-- environment.
use mathlib.Core.Option
use opendevops_codo_golang_s.Defaults.{empty_or}
use opendevops_codo_golang_s.Go.Number.{ℤ, atoi}
use opendevops_codo_golang_s.Logger.Level.{ZapLevel, parse_level, conv_zap_level, Level}
use opendevops_codo_golang_s.Go.Text.{Unicode}
use opendevops_codo_golang_s.Logger.Keyvals.{Fmt}
use opendevops_codo_golang_s.Common.{
  Bytes, List, Option, if◌then◌else◌, some, utf8, [], same, ◌∷◌, none,
}

pub record Field : Type 0 where
  pub key : Bytes
  pub value : Bytes

module _ {V : Type 0} (f : Fmt V) where
  -- The loop over keyvals: `none` where keyvals[i+1] panics.
  unfoldable pub zap_pairs : List V → Option (List Field)
  zap_pairs [] = some []
  zap_pairs (k ∷ []) = none
  zap_pairs (k ∷ v ∷ kvs) =
      Option.map (λ rest. record { key = f.verb_v k; value = f.verb_v v } ∷ rest) (zap_pairs kvs)

  -- One call: the level and the fields that zap is given.
  unfoldable pub zap_log :
      (trace_id span_id : Bytes) → Level → List V → Option (ZapLevel × List Field)
  unfolding zap_pairs conv_zap_level
  zap_log trace_id span_id level kvs =
      Option.map
        (λ fields. (
          conv_zap_level level,
          record { key = utf8 "trace_id"; value = trace_id }
              ∷ record { key = utf8 "span_id"; value = span_id }
              ∷ fields,
        ))
        (zap_pairs kvs)

-- LogConfig, without the trace provider.
record LogConfig : Type 0 where
  pub level : Bytes
  pub encoding : Bytes
  pub filepath : Bytes
  pub max_size : ℤ
  pub max_age : ℤ
  pub max_backups : ℤ

module _ (u : Unicode) (getenv : Bytes → Bytes) where
  unfoldable default_log_config : LogConfig
  default_log_config = record {
    level = empty_or u (getenv (utf8 "DEFAULT_LOG_LEVEL")) (utf8 "INFO");
    encoding = empty_or u (getenv (utf8 "DEFAULT_LOG_ENCODING")) (utf8 "console");
    filepath = empty_or u (getenv (utf8 "DEFAULT_LOG_FILEPATH")) [];
    max_size = (atoi (empty_or u (getenv (utf8 "DEFAULT_LOG_MAX_SIZE")) (utf8 "0"))).value;
    max_age = (atoi (empty_or u (getenv (utf8 "DEFAULT_LOG_MAX_AGE")) (utf8 "0"))).value;
    max_backups = (atoi (empty_or u (getenv (utf8 "DEFAULT_LOG_MAX_BACKUPS")) (utf8 "0"))).value;
  }

data Encoder : Type 0 where
  console json : Encoder

-- What NewLogger builds: the encoder, the least level that zap prints, and the rotated file beside
-- the standard output, if there is one.
record Core : Type 0 where
  pub encoder : Encoder
  pub enabled : ZapLevel
  pub file : Option LogConfig

unfoldable new_logger : Unicode → LogConfig → Core
unfolding parse_level conv_zap_level
new_logger u c = record {
  encoder = if same c.encoding (utf8 "json") then json else console;
  enabled = conv_zap_level (parse_level u c.level);
  file = elim c.filepath [ [] ↦ none | _ ↦ some c ];
}
