-- ===== src/Cache/Options.antt =====
-- pkg/cache/cache.go: the options of the Redis client from the environment.
pub mod Accepted
use golang_rest_api_template.Base.{
  ℕ, ◌*◌, Bool, true, Option, none, some, [], ◌∷◌, ◌++◌, if◌then◌else◌, any, Bytes, lit, ◌=s◌,
  is_empty, trim_space, to_lower,
}
use golang_rest_api_template.Base.Integers.{ℤ, pos, negsuc, atoi}
use golang_rest_api_template.Result.{Result, ok, err}
use golang_rest_api_template.Platform.{Duration, malformed, not_positive, positive}
use golang_rest_api_template.Auth.Tokens.{second}

-- Why `redisOptionsFromEnv` refuses, with the variable that it names.
pub data OptionError : Type 0 where
  not_a_number negative not_a_duration not_above_zero : (key : Bytes) → OptionError

-- `tls.Config` with the minimum version 1.2.
pub record TlsConfig : Type 0 where
  pub insecure_skip_verify : Bool

pub record Options : Type 0 where
  pub password : Bytes
  pub username : Bytes
  pub addr : Bytes
  pub db : ℕ
  pub dial_timeout : ℕ
  pub read_timeout : ℕ
  pub write_timeout : ℕ
  pub tls_config : Option TlsConfig

abbrev pub affirmative : Bytes → Bool
affirmative s = any (λ w. w =s s) (lit "1" ∷ lit "true" ∷ lit "yes" ∷ lit "on" ∷ [])

abbrev or_text : Bytes → Bytes → Bytes
or_text default s = if is_empty s then default else s

abbrev pub duration_of : Bytes → Duration → Result OptionError ℕ
duration_of key malformed = err (not_a_duration key)
duration_of key not_positive = err (not_above_zero key)
duration_of key (positive d) = ok d

abbrev pub db_of : Option ℤ → Result OptionError ℕ
db_of none = err (not_a_number (lit "REDIS_DB"))
db_of (some (negsuc n)) = err (negative (lit "REDIS_DB"))
db_of (some (pos n)) = ok n

module _ {A B : Type 0} where
  -- `if err != nil { return nil, err }`.
  abbrev pub and_then : Result OptionError A → (A → Result OptionError B) → Result OptionError B
  and_then (err e) f = err e
  and_then (ok a) f = f a

module _ (getenv : Bytes → Bytes) (parse_duration : Bytes → Duration) where
  abbrev pub setting : Bytes → Bytes
  unfolding trim_space
  setting key = trim_space (getenv key)

  unfoldable pub env_truthy : Bytes → Bool
  unfolding trim_space to_lower
  env_truthy key = affirmative (to_lower (setting key))

  unfoldable pub duration_from_env : Bytes → ℕ → Result OptionError ℕ
  unfolding trim_space
  duration_from_env key default =
      let v = setting key in if is_empty v then ok default else duration_of key (parse_duration v)

  unfoldable pub address : Bytes
  unfolding trim_space
  address =
      let addr = setting (lit "REDIS_ADDR") in
      let host = or_text (lit "127.0.0.1") (setting (lit "REDIS_HOST")) in
      let port = or_text (lit "6379") (setting (lit "REDIS_PORT")) in
      if is_empty addr then host ++ (lit ":" ++ port) else addr

  unfoldable pub database : Result OptionError ℕ
  unfolding trim_space atoi
  database = let s = setting (lit "REDIS_DB") in if is_empty s then ok 0 else db_of (atoi s)

  unfoldable pub tls_config_from_env : Option TlsConfig
  unfolding env_truthy
  tls_config_from_env =
      if env_truthy (lit "REDIS_TLS")
      then some (record { insecure_skip_verify = env_truthy (lit "REDIS_TLS_INSECURE") })
      else none

  abbrev pub options_with : (db dial read write : ℕ) → Options
  unfolding trim_space address tls_config_from_env
  options_with db dial read write = record {
    password = setting (lit "REDIS_PASSWORD");
    username = setting (lit "REDIS_USERNAME");
    addr = address;
    db = db;
    dial_timeout = dial;
    read_timeout = read;
    write_timeout = write;
    tls_config = tls_config_from_env;
  }

  abbrev pub dial : Result OptionError ℕ
  unfolding duration_from_env
  dial = duration_from_env (lit "REDIS_DIAL_TIMEOUT") (5 * second)

  abbrev pub read : Result OptionError ℕ
  unfolding duration_from_env
  read = duration_from_env (lit "REDIS_READ_TIMEOUT") (3 * second)

  abbrev pub write : Result OptionError ℕ
  unfolding duration_from_env
  write = duration_from_env (lit "REDIS_WRITE_TIMEOUT") (3 * second)

  abbrev pub with_write : (db dial read : ℕ) → Result OptionError Options
  unfolding options_with write
  with_write db dial read = and_then write (λ w. ok (options_with db dial read w))

  abbrev pub with_read : (db dial : ℕ) → Result OptionError Options
  unfolding with_write read
  with_read db dial = and_then read (λ r. with_write db dial r)

  abbrev pub with_dial : (db : ℕ) → Result OptionError Options
  unfolding with_read dial
  with_dial db = and_then dial (λ d. with_read db d)

  unfoldable pub redis_options_from_env : Result OptionError Options
  unfolding database with_dial
  redis_options_from_env = and_then database with_dial
