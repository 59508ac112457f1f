-- ===== src/Examples/Settings.antt =====
-- Tests of the models of the settings.
use opendevops_codo_golang_s.Defaults.Mysql.{new_mysql, default_db_config}
use opendevops_codo_golang_s.Go.Number.{pos, format_uint, atoi, to_unsigned}
use opendevops_codo_golang_s.Go.Text.{join, trim_space, bare, is_ascii}
use opendevops_codo_golang_s.Common.{Bytes, [], false, if◌then◌else◌, utf8, ◌≡◌, refl, same, ◌∷◌}
use opendevops_codo_golang_s.Defaults.Kafka.{KafkaConfig, Net}
use opendevops_codo_golang_s.Defaults.Redis.{RedisConfig}

abbrev redis_example : RedisConfig
redis_example = record {
  host = utf8 "localhost";
  port = 6379;
  pass = [];
  dial_timeout = 3;
  read_timeout = 20;
  write_timeout = 10;
}

abbrev off : Net
off = record {
  sasl = record { enable = false; user = []; password = []; mechanism = [] };
  open_requests = 5;
  dial = pos 0;
  read = pos 0;
  write = pos 0;
}

abbrev named : KafkaConfig
named = record {
  bootstrap_servers = [];
  group_id = [];
  sasl_username = utf8 "u";
  sasl_password = utf8 "p";
  sasl_mechanism = utf8 "PLAIN";
  max_open_requests = 1;
  dial_timeout = 1;
  read_timeout = 1;
  write_timeout = 1;
}

abbrev two_hosts : Bytes
two_hosts = utf8 "a:1,b:2"

abbrev with_hosts : Bytes → Bytes
with_hosts k = if same k (utf8 "DEFAULT_KAFKA_BOOTSTRAP_SERVERS") then two_hosts else []

listed : two_hosts ≡ join b',' (utf8 "a:1" ∷ utf8 "b:2" ∷ [])
unfolding join
listed = refl

trimmed : trim_space bare two_hosts ≡ two_hosts
unfolding trim_space
trimmed = refl

-- NewMysql with no variable set and no options.
default_dsn :
    (new_mysql (default_db_config bare (λ k. [])) []).dsn
    ≡ utf8 "admin:123456@tcp(127.0.0.1:3306)/default?loc=Local&charset=utf8mb4&parseTime=True"
unfolding new_mysql default_db_config trim_space is_ascii format_uint atoi to_unsigned
default_dsn = refl
