-- ===== src/Examples/Startup.antt =====
-- The start of the process: settings, connections, probes and the ends of `main`.
use golang_rest_api_template.Base.{
  ℕ, ◌+◌, ◌-◌, ◌≡◌, refl, Bool, true, false, none, some, [], ◌∷◌, arith, if◌then◌else◌, Bytes, lit,
  ◌=s◌, trim_space, to_lower, is_some,
}
use golang_rest_api_template.Base.Integers.{pos}
use golang_rest_api_template.Base.Split.{split, split_from, trimmed_parts}
use golang_rest_api_template.Errors.{Cause, other}
use golang_rest_api_template.Result.{Result, ok, err, is_ok}
use golang_rest_api_template.Platform.{Duration, malformed}
use golang_rest_api_template.Database.{
  PoolConfig, Pgxpool, attempt, apply_pool_config, new_database,
}
use golang_rest_api_template.Database.Sizes.{IsSized, apply_pool_config-IsSized}
use golang_rest_api_template.Database.Attempts.{
  PoolLaws, IsTidy, count, new_database-IsTidy, new_database_connects, world_of_attempt,
}
use golang_rest_api_template.Kafka
use golang_rest_api_template.Kafka.Brokers.{IsUsable, IsExact, config_from_env-IsUsable}
use golang_rest_api_template.Cache.Options
use golang_rest_api_template.Tracing
use golang_rest_api_template.Tracing.Variables.{RuntimeLaws, IsInitialised, init-IsInitialised}
use golang_rest_api_template.Server.{Answers, failed, main}
use golang_rest_api_template.Server.Closing.{IsOrderly, main-IsOrderly}
use golang_rest_api_template.Api.Probes.{no_redis, no_collection, readyz_handler}
use golang_rest_api_template.Api.Probes.Readiness.{IsVerdict, readyz_handler-IsVerdict}
use golang_rest_api_template.Http.{Context}

-- An environment that sets the brokers, and no other variable.
abbrev settings : Bytes → Bytes
settings key = if key =s lit "KAFKA_BROKERS" then lit " a:1, ,b:2 " else []

abbrev no_durations : Bytes → Duration
no_durations s = malformed

no_durations-IsExact : IsExact no_durations
unfolding IsExact
no_durations-IsExact s d e = absurd (cc)

-- The pools of a server that refuses the first connection.
record Pools : Type 0 where
  flaky : Bool
  open_pools : ℕ
  time_slept : ℕ

abbrev refused_once : Pools
refused_once = record { flaky = true; open_pools = 0; time_slept = 0 }

abbrev no_config : PoolConfig ℕ
no_config = record {
  parsed = 0;
  max_conns = 0;
  min_idle_conns = 0;
  max_conn_lifetime = 0;
  max_conn_idle_time = 0;
}

abbrev new_pool : Bool → Pools → Result Cause ℕ × Pools
new_pool true w = (err (other (lit "refused")), record w { flaky = false })
new_pool false w = (ok 1, record w { open_pools = w.open_pools + 1 })

abbrev server : Pgxpool Pools ℕ ℕ
server = record {
  parse_config = λ url. ok no_config;
  new_with_config = λ cfg w. new_pool w.flaky w;
  ping = λ pool w. (ok tt, w);
  exec = λ pool sql w. (ok tt, w);
  close = λ pool w. record w { open_pools = w.open_pools - 1 };
  sleep = λ n w. record w { time_slept = w.time_slept + n };
}

new_pool_ok :
    (b : Bool) (w : Pools) (pool : ℕ)
    → (new_pool b w).0 ≡ ok pool
    → (new_pool b w).1.open_pools ≡ w.open_pools + 1
new_pool_ok true w pool e = absurd (cc)
new_pool_ok false w pool e = refl

new_pool_err :
    (b : Bool) (w : Pools) (c : Cause)
    → (new_pool b w).0 ≡ err c
    → (new_pool b w).1.open_pools ≡ w.open_pools
new_pool_err true w c e = refl
new_pool_err false w c e = absurd (cc)

new_pool_slept : (b : Bool) (w : Pools) → (new_pool b w).1.time_slept ≡ w.time_slept
new_pool_slept true w = refl
new_pool_slept false w = refl

server_laws : PoolLaws server
server_laws = record {
  opened = λ w. w.open_pools;
  slept = λ w. w.time_slept;
  new_ok = λ cfg w pool e. new_pool_ok w.flaky w pool e;
  new_err = λ cfg w c e. new_pool_err w.flaky w c e;
  new_slept = λ cfg w. new_pool_slept w.flaky w;
  ping_opened = λ pool w. refl;
  ping_slept = λ pool w. refl;
  exec_opened = λ pool sql w. refl;
  exec_slept = λ pool sql w. refl;
  close_opened = λ pool w. refl;
  close_slept = λ pool w. refl;
  sleep_opened = λ n w. refl;
  sleep_slept = λ n w. refl;
}

apply_pool_config-IsSized_example : IsSized (apply_pool_config settings no_durations no_config)
apply_pool_config-IsSized_example = apply_pool_config-IsSized settings no_durations no_config

new_database-IsTidy_example :
    IsTidy server server_laws refused_once 9000000000
      (count (new_database server settings no_durations (lit "ddl") refused_once).0)
      (new_database server settings no_durations (lit "ddl") refused_once).1
new_database-IsTidy_example =
    new_database-IsTidy server server_laws settings no_durations (lit "ddl") refused_once

second_attempt :
    (attempt server (apply_pool_config settings no_durations no_config) (
      world_of_attempt server 1 (apply_pool_config settings no_durations no_config) refused_once)).0
    ≡ ok 1
unfolding world_of_attempt
second_attempt = refl

new_database_connects_example :
    is_some (new_database server settings no_durations (lit "ddl") refused_once).0 ≡ true
new_database_connects_example =
    new_database_connects server settings no_durations (lit "ddl") no_config 1 1 refused_once refl
      (omega arith) second_attempt (λ p v. refl)

abbrev kafka_config : Kafka.Config
kafka_config = record {
  brokers = lit "a:1" ∷ lit "b:2" ∷ [];
  topic_prefix = lit "app";
  publish_timeout = 2000000000;
}

kafka_config_read : Kafka.config_from_env settings no_durations ≡ ok kafka_config
unfolding Kafka.config_from_env trim_space split split_from trimmed_parts
kafka_config_read = refl

config_from_env-IsUsable_example : IsUsable kafka_config
config_from_env-IsUsable_example =
    config_from_env-IsUsable settings no_durations kafka_config no_durations-IsExact
      kafka_config_read

abbrev redis_options : Options.Options
redis_options = record {
  password = [];
  username = [];
  addr = lit "127.0.0.1:6379";
  db = 0;
  dial_timeout = 5000000000;
  read_timeout = 3000000000;
  write_timeout = 3000000000;
  tls_config = none;
}

redis_options_read : Options.redis_options_from_env settings no_durations ≡ ok redis_options
unfolding Options.redis_options_from_env trim_space Options.duration_from_env Options.address
    Options.database Options.tls_config_from_env Options.env_truthy to_lower
redis_options_read = refl

-- A tracer's SDK whose exporter fails; the world is the package variables.
abbrev broken_sdk : Tracing.Sdk Tracing.Runtime ℕ ℕ
broken_sdk = record {
  new_resource = λ name w. (ok tt, w);
  new_stdout_exporter = λ w. (ok 1, w);
  new_otlp_exporter = λ w. (err (other (lit "no route")), w);
  new_tracer_provider = λ e w. (1, w);
  shutdown = λ t w. (ok tt, w);
  runtime = λ w. w;
  put_runtime = λ r w. r;
}

broken_sdk_laws : RuntimeLaws broken_sdk
broken_sdk_laws = record {
  runtime-put = λ r w. refl;
  runtime-resource = λ name w. refl;
  runtime-stdout = λ w. refl;
  runtime-otlp = λ w. refl;
  runtime-provider = λ e w. refl;
}

abbrev traced : Tracing.Config
traced = record { enabled = true; service_name = lit "books"; exporter = Tracing.otlp }

abbrev untraced : Tracing.Runtime
untraced = record { enabled = false; service = lit "none" }

-- `Init` fails here, and tracing counts as enabled all the same.
init_fails : is_ok (Tracing.init broken_sdk traced untraced).0 ≡ false
unfolding Tracing.init Tracing.set_runtime Tracing.new_span_exporter
init_fails = refl

abbrev plain_tracing : Tracing.Config
plain_tracing = record { enabled = true; service_name = []; exporter = Tracing.stdout }

init_works : (Tracing.init broken_sdk plain_tracing untraced).0 ≡ ok (record { tp = some 1 })
unfolding Tracing.init Tracing.set_runtime Tracing.new_span_exporter
init_works = refl

init-IsInitialised_example :
    IsInitialised broken_sdk broken_sdk_laws plain_tracing
      (record { tp = some 1 })
      (Tracing.init broken_sdk plain_tracing untraced).1
init-IsInitialised_example =
    init-IsInitialised broken_sdk broken_sdk_laws plain_tracing untraced (record { tp = some 1 })
      init_works

abbrev all_well : Answers
all_well = record {
  jwt_key_valid = true;
  api_key_valid = true;
  tracing_ok = true;
  redis_ok = true;
  mongo_ok = true;
  publisher_ok = true;
  logger_ok = true;
  database_ok = true;
  router_ok = true;
}

main-IsOrderly_example : IsOrderly all_well failed (main all_well failed)
main-IsOrderly_example = main-IsOrderly all_well failed

abbrev pub probe : Context
probe = record {
  request = record {
    method = lit "GET";
    path = lit "/readyz";
    header = λ name. [];
    id_param = [];
    query = λ name. none;
    body = [];
    content_length = pos 0;
    client_ip = lit "1";
  };
  username = none;
  user_id = none;
  role = none;
  jti = none;
  access_exp = none;
  request_id = none;
  body_cap = none;
  headers = [];
}

abbrev cause_text : Cause → Bytes
cause_text c = lit "error"

readyz_handler-IsVerdict_example :
    IsVerdict {W = ℕ}
      (some (λ w. (ok tt, w)))
      no_redis
      no_collection
      probe
      0
      (readyz_handler {W = ℕ} cause_text (some (λ w. (ok tt, w))) no_redis no_collection probe 0).0
readyz_handler-IsVerdict_example =
    readyz_handler-IsVerdict {W = ℕ} cause_text (some (λ w. (ok tt, w))) no_redis no_collection
      probe 0
