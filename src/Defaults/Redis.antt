-- ===== src/Defaults/Redis.antt =====
-- redis/redis.go: the settings and the options that NewRedis and NewRedisV8 pass to their clients. The
-- providers of traces and metrics are left out.
use opendevops_codo_golang_s.Go.Number.{ℤ, format_uint, pos}
use opendevops_codo_golang_s.Defaults.{empty_or, atoi_u32, seconds, seconds-exact}
use opendevops_codo_golang_s.Go.Text.{Unicode}
use opendevops_codo_golang_s.Common.{
  Bytes, List, foldl, ℕ, utf8, ◌≡◌, ◌++◌, ◌<◌, ◌^◌, ◌*◌, Option, ◌⊎◌, inl, some, inr, none,
}

pub record RedisConfig : Type 0 where
  pub host : Bytes
  pub port : ℕ
  pub pass : Bytes
  pub dial_timeout : ℕ
  pub read_timeout : ℕ
  pub write_timeout : ℕ

module _ (u : Unicode) (getenv : Bytes → Bytes) where
  unfoldable default_redis_config : RedisConfig
  unfolding empty_or atoi_u32
  default_redis_config = record {
    host = empty_or u (getenv (utf8 "DEFAULT_REDIS_HOST")) (utf8 "127.0.0.1");
    port = atoi_u32 (empty_or u (getenv (utf8 "DEFAULT_REDIS_PORT")) (utf8 "6379"));
    pass = empty_or u (getenv (utf8 "DEFAULT_REDIS_PASS")) (utf8 "123456");
    dial_timeout = atoi_u32 (empty_or u (getenv (utf8 "DEFAULT_REDIS_DIAL_TIMEOUT")) (utf8 "10"));
    read_timeout = atoi_u32 (empty_or u (getenv (utf8 "DEFAULT_REDIS_READ_TIMEOUT")) (utf8 "10"));
    write_timeout = atoi_u32 (empty_or u (getenv (utf8 "DEFAULT_REDIS_WRITE_TIMEOUT")) (utf8 "10"));
  }

-- redis.Options of both versions of the library.
record Options : Type 0 where
  pub network : Bytes
  pub addr : Bytes
  pub password : Bytes
  pub dial : ℤ
  pub read : ℤ
  pub write : ℤ

-- What NewRedis and NewRedisV8 do before they create the client.
unfoldable redis_options : RedisConfig → List (RedisConfig → RedisConfig) → Options
redis_options default_config opts =
    let cfg = foldl (λ c o. o c) default_config opts in
    record {
      network = utf8 "tcp";
      addr = cfg.host ++ (utf8 ":" ++ format_uint cfg.port);
      password = cfg.pass;
      dial = seconds cfg.read_timeout;
      read = seconds cfg.read_timeout;
      write = seconds cfg.write_timeout;
    }

-- NewRedis: `make` is redis.NewClient, and the other arguments are what the two instrumentations return.
unfoldable new_redis :
    {C : Type 0}
    → (make : Options → C) → (tracing_error metrics_error : Option Bytes) → RedisConfig
    → List (RedisConfig → RedisConfig)
    → C ⊎ Bytes
unfolding redis_options
new_redis make tracing_error metrics_error default_config opts = elim tracing_error [
  | some e ↦ inr e
  | none ↦ elim metrics_error [
    | some e ↦ inr e
    | none ↦ inl (make (redis_options default_config opts))
  ]
]

-- NewRedisV8, whose hook makes no error.
unfoldable new_redis_v8 :
    {C : Type 0} → (make : Options → C) → RedisConfig → List (RedisConfig → RedisConfig) → C ⊎ Bytes
unfolding redis_options
new_redis_v8 make default_config opts = inl (make (redis_options default_config opts))

-- Where the options leave the settings within uint32, the client reads and writes with the configured
-- seconds, in nanoseconds and without overflow, and dials with the read timeout, whatever dial timeout is
-- configured.
redis_options_timeouts :
    (default_config : RedisConfig) (opts : List (RedisConfig → RedisConfig)) (cfg : RedisConfig)
    → foldl (λ c o. o c) default_config opts ≡ cfg
    → cfg.read_timeout < 2 ^ 32
    → cfg.write_timeout < 2 ^ 32
    → ((redis_options default_config opts).read ≡ pos (cfg.read_timeout * 1_000_000_000))
      × ((redis_options default_config opts).write ≡ pos (cfg.write_timeout * 1_000_000_000))
      × ((redis_options default_config opts).dial ≡ pos (cfg.read_timeout * 1_000_000_000))
unfolding redis_options
redis_options_timeouts default_config opts cfg e hr hw = rw e (
  seconds-exact cfg.read_timeout hr,
  seconds-exact cfg.write_timeout hw,
  seconds-exact cfg.read_timeout hr,
)
