-- ===== src/Database.antt =====
-- pkg/database/db.go: the sizes of the pool from the environment, and the attempts to connect. pgx
-- and `time.Sleep` are a parameter; what is only printed to the log is left out.
pub mod Sizes
pub mod Attempts
pub mod Mongo
use golang_rest_api_template.Base.{
  ℕ, zero, suc, ◌*◌, Option, none, some, ◌++◌, ltb, if◌then◌else◌, Bytes, lit, is_empty, trim_space,
}
use golang_rest_api_template.Errors.{Cause}
use golang_rest_api_template.Base.Integers.{ℤ, pos, negsuc, atoi, positive_or}
use golang_rest_api_template.Platform.{Duration}
use golang_rest_api_template.Auth.Tokens.{second, duration_or}
use golang_rest_api_template.Result.{Result, ok, err, Io}

abbrev default_postgres_max_open_conns : ℕ
default_postgres_max_open_conns = 25

abbrev default_postgres_max_idle_conns : ℕ
default_postgres_max_idle_conns = 5

abbrev default_postgres_conn_max_lifetime : ℕ
default_postgres_conn_max_lifetime = 3600 * second

abbrev default_postgres_conn_max_idle_time : ℕ
default_postgres_conn_max_idle_time = 600 * second

abbrev pub max_int32 : ℕ
max_int32 = 2147483647

abbrev pub clamp_to_int32 : ℤ → ℕ
clamp_to_int32 (pos v) = if ltb max_int32 v then max_int32 else v
clamp_to_int32 (negsuc v) = 0

-- The fields of `pgxpool.Config` that the code sets, beside what it parsed from the URL.
pub record PoolConfig (C : Type 0) : Type 0 where
  pub parsed : C
  pub max_conns : ℕ
  pub min_idle_conns : ℕ
  pub max_conn_lifetime : ℕ
  pub max_conn_idle_time : ℕ

module _ (getenv : Bytes → Bytes) where
  unfoldable getenv_positive_int : Bytes → ℕ → ℕ
  unfolding trim_space atoi
  getenv_positive_int key default =
      let s = trim_space (getenv key) in
      if is_empty s then default else positive_or default (atoi s)

module _ (getenv : Bytes → Bytes) (parse_duration : Bytes → Duration) where
  unfoldable getenv_positive_duration : Bytes → ℕ → ℕ
  unfolding trim_space
  getenv_positive_duration key default =
      let s = trim_space (getenv key) in
      if is_empty s then default else duration_or default (parse_duration s)

  unfoldable pub apply_pool_config : {C : Type 0} → PoolConfig C → PoolConfig C
  unfolding getenv_positive_int getenv_positive_duration
  apply_pool_config cfg =
      let max_open =
        getenv_positive_int getenv (lit "POSTGRES_MAX_OPEN_CONNS")
          default_postgres_max_open_conns in
      let wanted =
        getenv_positive_int getenv (lit "POSTGRES_MAX_IDLE_CONNS")
          default_postgres_max_idle_conns in
      let min_idle = if ltb max_open wanted then max_open else wanted in
      record cfg {
        max_conns = clamp_to_int32 (pos max_open);
        min_idle_conns = clamp_to_int32 (pos min_idle);
        max_conn_lifetime =
            getenv_positive_duration (lit "POSTGRES_CONN_MAX_LIFETIME")
              default_postgres_conn_max_lifetime;
        max_conn_idle_time =
            getenv_positive_duration (lit "POSTGRES_CONN_MAX_IDLE_TIME")
              default_postgres_conn_max_idle_time;
      }

-- What the code calls of pgxpool, with `sleep`.
pub record Pgxpool (W C Pool : Type 0) : Type 0 where
  pub parse_config : Bytes → Result Cause (PoolConfig C)
  pub new_with_config : PoolConfig C → Io W Cause Pool
  pub ping : Pool → Io W Cause (Unit {0})
  pub exec : Pool → (sql : Bytes) → Io W Cause (Unit {0})
  pub close : Pool → W → W
  pub sleep : ℕ → W → W

module _ {W C Pool : Type 0} (x : Pgxpool W C Pool) where
  abbrev pub close_unpinged : Pool → Result Cause (Unit {0}) × W → Result Cause Pool × W
  close_unpinged pool (ok u, w) = (ok pool, w)
  close_unpinged pool (err e, w) = (err e, x.close pool w)

  abbrev pub ping_new : Result Cause Pool × W → Result Cause Pool × W
  ping_new (err e, w) = (err e, w)
  ping_new (ok pool, w) = close_unpinged pool (x.ping pool w)

  -- One round of the loop, without the sleep: a pool that does not answer the ping is closed.
  abbrev pub attempt : PoolConfig C → Io W Cause Pool
  attempt cfg w = ping_new (x.new_with_config cfg w)

  abbrev pub else_sleep : (W → Option Pool × W) → Result Cause Pool × W → Option Pool × W
  else_sleep again (ok pool, w) = (some pool, w)
  else_sleep again (err e, w) = again (x.sleep (3 * second) w)

  -- The loop with the rounds that are left.
  unfoldable connect : ℕ → PoolConfig C → W → Option Pool × W
  connect zero cfg w = (none, w)
  connect (suc n) cfg w = else_sleep (connect n cfg) (attempt cfg w)

  unfoldable apply_schema : (schema_sql : Bytes) → Pool → Io W Cause (Unit {0})
  apply_schema schema_sql pool = x.exec pool schema_sql

  abbrev pub keep_migrated : Pool → Result Cause (Unit {0}) × W → Option Pool × W
  keep_migrated pool (ok u, w) = (some pool, w)
  keep_migrated pool (err e, w) = (none, x.close pool w)

  abbrev pub migrate : (schema_sql : Bytes) → Option Pool × W → Option Pool × W
  unfolding apply_schema
  migrate schema_sql (none, w) = (none, w)
  migrate schema_sql (some pool, w) = keep_migrated pool (apply_schema schema_sql pool w)

  abbrev pub db_url : (Bytes → Bytes) → Bytes
  db_url getenv =
      lit "postgres://"
      ++ (getenv (lit "POSTGRES_USER")
          ++ (lit ":"
              ++ (getenv (lit "POSTGRES_PASSWORD")
                  ++ (lit "@"
                      ++ (getenv (lit "POSTGRES_HOST")
                          ++ (lit ":"
                              ++ (getenv (lit "POSTGRES_PORT")
                                  ++ (lit "/" ++ getenv (lit "POSTGRES_DB")))))))))

  module _ (getenv : Bytes → Bytes) (parse_duration : Bytes → Duration) (schema_sql : Bytes) where
    abbrev pub open_pool : Result Cause (PoolConfig C) → W → Option Pool × W
    unfolding apply_pool_config connect
    open_pool (err e) w = (none, w)
    open_pool (ok cfg) w =
        migrate schema_sql (connect 3 (apply_pool_config getenv parse_duration cfg) w)

    -- `none` is the nil pool.
    unfoldable pub new_database : W → Option Pool × W
    unfolding apply_pool_config connect
    new_database w = open_pool (x.parse_config (db_url getenv)) w
