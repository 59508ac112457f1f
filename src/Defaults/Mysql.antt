-- ===== src/Defaults/Mysql.antt =====
-- mysql/mysql.go: the settings, the DSN and the limits that NewMysql sets. The driver, sql.Open and the
-- providers of traces and metrics are left out.
use opendevops_codo_golang_s.Go.Number.{ℤ, format_uint, pos}
use opendevops_codo_golang_s.Defaults.{
  empty_or, atoi_u32, seconds, atoi_u32-format_uint, seconds-exact,
}
use opendevops_codo_golang_s.Go.Text.{Unicode}
use opendevops_codo_golang_s.Common.{Bytes, List, foldl, ℕ, ◌++◌, utf8, ◌<◌, ◌^◌, ◌≡◌, [], ◌*◌}

pub record DbConfig : Type 0 where
  pub host : Bytes
  pub port : ℕ
  pub user : Bytes
  pub pass : Bytes
  pub db_name : Bytes
  pub conn_max_idle_time : ℕ
  pub conn_max_lifetime : ℕ
  pub max_idle_conns : ℕ
  pub max_open_conns : ℕ

module _ (u : Unicode) (getenv : Bytes → Bytes) where
  unfoldable pub default_db_config : DbConfig
  unfolding empty_or atoi_u32
  default_db_config = record {
    host = empty_or u (getenv (utf8 "DEFAULT_MYSQL_HOST")) (utf8 "127.0.0.1");
    port = atoi_u32 (empty_or u (getenv (utf8 "DEFAULT_MYSQL_PORT")) (utf8 "3306"));
    user = empty_or u (getenv (utf8 "DEFAULT_MYSQL_USER")) (utf8 "admin");
    pass = empty_or u (getenv (utf8 "DEFAULT_MYSQL_PASS")) (utf8 "123456");
    db_name = empty_or u (getenv (utf8 "DEFAULT_MYSQL_DB_NAME")) (utf8 "default");
    conn_max_idle_time =
        atoi_u32 (empty_or u (getenv (utf8 "DEFAULT_MYSQL_CONN_MAX_IDLE_TIME")) (utf8 "300"));
    conn_max_lifetime =
        atoi_u32 (empty_or u (getenv (utf8 "DEFAULT_MYSQL_CONN_MAX_LIFETIME")) (utf8 "300"));
    max_idle_conns =
        atoi_u32 (empty_or u (getenv (utf8 "DEFAULT_MYSQL_MAX_IDLE_CONNS")) (utf8 "60"));
    max_open_conns =
        atoi_u32 (empty_or u (getenv (utf8 "DEFAULT_MYSQL_MAX_OPEN_CONNS")) (utf8 "60"));
  }

-- The data source name, as NewMysql prints it.
unfoldable data_source : DbConfig → Bytes
data_source cfg =
    cfg.user
    ++ (utf8 ":"
        ++ (cfg.pass
            ++ (utf8 "@tcp("
                ++ (cfg.host
                    ++ (utf8 ":"
                        ++ (format_uint cfg.port
                            ++ (utf8 ")/"
                                ++ (cfg.db_name
                                    ++ utf8 "?loc=Local&charset=utf8mb4&parseTime=True"))))))))

-- What NewMysql hands to package sql.
pub record Db : Type 0 where
  pub dsn : Bytes
  pub max_idle_time : ℤ
  pub max_lifetime : ℤ
  pub max_idle : ℕ
  pub max_open : ℕ

unfoldable pub new_mysql : DbConfig → List (DbConfig → DbConfig) → Db
unfolding data_source
new_mysql default_config opts =
    let cfg = foldl (λ c o. o c) default_config opts in
    record {
      dsn = data_source cfg;
      max_idle_time = seconds cfg.conn_max_idle_time;
      max_lifetime = seconds cfg.conn_max_lifetime;
      max_idle = cfg.max_idle_conns;
      max_open = cfg.max_open_conns;
    }

-- Where the port that is configured fits a uint32, its variable is read back as that port, and a lifetime
-- that is configured in seconds is given to package sql in nanoseconds, without overflow.
new_mysql_settings :
    (u : Unicode) (getenv : Bytes → Bytes) (port lifetime : ℕ)
    → port < 2 ^ 32
    → lifetime < 2 ^ 32
    → getenv (utf8 "DEFAULT_MYSQL_PORT") ≡ format_uint port
    → getenv (utf8 "DEFAULT_MYSQL_CONN_MAX_LIFETIME") ≡ format_uint lifetime
    → ((default_db_config u getenv).port ≡ port)
      × ((new_mysql (default_db_config u getenv) []).max_lifetime ≡ pos (lifetime * 1_000_000_000))
unfolding default_db_config new_mysql
new_mysql_settings u getenv port lifetime hp hl ep el = (
  rw ep (atoi_u32-format_uint u port (utf8 "3306") hp),
  rw (el, atoi_u32-format_uint u lifetime (utf8 "300") hl) (seconds-exact lifetime hl),
)
