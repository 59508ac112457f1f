-- ===== src/Defaults/Kafka.antt =====
-- kafka/kafka.go: the settings, the options, and what NewProducer and NewConsumerGroup set in the
-- configuration of the library, whose other fields are left out.
pub mod Clients
use opendevops_codo_golang_s.Go.Number.{ℤ}
use opendevops_codo_golang_s.Defaults.{empty_or, atoi_u32, seconds, empty_or_kept}
use opendevops_codo_golang_s.Go.Text.{Unicode, Lacks, split, join, trim_space, split-join}
use opendevops_codo_golang_s.Common.{
  Bool, Bytes, List, if◌then◌else◌, ℕ, ◌≡◌, false, ◌&&◌, All, true, utf8, ◌∷◌, [], ◌↔◌, ◌≢◌, arith,
}

pub record KafkaConfig : Type 0 where
  pub bootstrap_servers : List Bytes
  pub group_id : Bytes
  pub sasl_username : Bytes
  pub sasl_password : Bytes
  pub sasl_mechanism : Bytes
  pub max_open_requests : ℕ
  pub dial_timeout : ℕ
  pub read_timeout : ℕ
  pub write_timeout : ℕ

module _ (u : Unicode) (getenv : Bytes → Bytes) where
  unfoldable default_kafka_config : KafkaConfig
  unfolding empty_or atoi_u32
  default_kafka_config = record {
    bootstrap_servers =
        split b','
          (empty_or u (getenv (utf8 "DEFAULT_KAFKA_BOOTSTRAP_SERVERS")) (utf8 "localhost:9092"));
    group_id = empty_or u (getenv (utf8 "DEFAULT_KAFKA_GROUP_ID")) (utf8 "default-group");
    sasl_username = empty_or u (getenv (utf8 "DEFAULT_KAFKA_SASL_USERNAME")) [];
    sasl_password = empty_or u (getenv (utf8 "DEFAULT_KAFKA_SASL_PASSWORD")) [];
    sasl_mechanism = empty_or u (getenv (utf8 "DEFAULT_KAFKA_SASL_MECHANISM")) [];
    max_open_requests =
        atoi_u32 (empty_or u (getenv (utf8 "DEFAULT_KAFKA_MAX_OPEN_REQUESTS")) (utf8 "10"));
    dial_timeout =
        atoi_u32 (empty_or u (getenv (utf8 "DEFAULT_KAFKA_DIAL_READ_TIMEOUT")) (utf8 "10"));
    read_timeout = atoi_u32 (empty_or u (getenv (utf8 "DEFAULT_KAFKA_READ_TIMEOUT")) (utf8 "10"));
    write_timeout = atoi_u32 (empty_or u (getenv (utf8 "DEFAULT_KAFKA_WRITE_TIMEOUT")) (utf8 "10"));
  }

-- The options WithBootstrapServers, WithSASLUsername and WithSASLPassword.
unfoldable with_bootstrap_servers : Bytes → KafkaConfig → KafkaConfig
with_bootstrap_servers servers c = record c { bootstrap_servers = split b',' servers }

unfoldable with_sasl_username : Bytes → KafkaConfig → KafkaConfig
with_sasl_username username c = record c { sasl_username = username }

unfoldable with_sasl_password : Bytes → KafkaConfig → KafkaConfig
with_sasl_password password c = record c { sasl_password = password }

-- config.Net.SASL and the rest of config.Net.
pub record Sasl : Type 0 where
  pub enable : Bool
  pub user : Bytes
  pub password : Bytes
  pub mechanism : Bytes

pub record Net : Type 0 where
  pub sasl : Sasl
  pub open_requests : ℕ
  pub dial : ℤ
  pub read : ℤ
  pub write : ℤ

abbrev nonempty : Bytes → Bool
nonempty [] = false
nonempty (c ∷ s) = true

-- What NewProducer and NewConsumerGroup alike set; `net` is what sarama.NewConfig returned.
unfoldable pub configure_net : KafkaConfig → Net → Net
configure_net c net = record {
  sasl =
      if nonempty c.sasl_username && nonempty c.sasl_password
      then record {
        enable = true;
        user = c.sasl_username;
        password = c.sasl_password;
        mechanism = c.sasl_mechanism;
      }
      else net.sasl;
  open_requests = c.max_open_requests;
  dial = seconds c.dial_timeout;
  read = seconds c.read_timeout;
  write = seconds c.write_timeout;
}

-- From a configuration with SASL off, SASL is on exactly where both the name and the password are set, and
-- then it has that name and that password.
configure_net_sasl :
    (c : KafkaConfig) (net : Net)
    → net.sasl.enable ≡ false
    → ((configure_net c net).sasl.enable ≡ true) ↔ (
        ((configure_net c net).sasl ≡ record {
          enable = true;
          user = c.sasl_username;
          password = c.sasl_password;
          mechanism = c.sasl_mechanism;
        })
        × (c.sasl_username ≢ [])
        × (c.sasl_password ≢ []))
unfolding configure_net
configure_net_sasl c net h = ground arith

-- The servers that the variable lists, separated by commas, are the ones that are used, if no address
-- holds a comma, there is one, and the list has no space around it and is not empty.
default_kafka_config_servers :
    (u : Unicode) (getenv : Bytes → Bytes) (s : Bytes) (ss : List Bytes)
    → Lacks b',' s
    → All (Lacks b',') ss
    → getenv (utf8 "DEFAULT_KAFKA_BOOTSTRAP_SERVERS") ≡ join b',' (s ∷ ss)
    → trim_space u (join b',' (s ∷ ss)) ≡ join b',' (s ∷ ss)
    → join b',' (s ∷ ss) ≢ []
    → (default_kafka_config u getenv).bootstrap_servers ≡ s ∷ ss
unfolding default_kafka_config
default_kafka_config_servers u getenv s ss h hs e trimmed listed =
    rw (e, empty_or_kept u (join b',' (s ∷ ss)) (utf8 "localhost:9092") trimmed listed)
      (split-join b',' s ss h hs)
