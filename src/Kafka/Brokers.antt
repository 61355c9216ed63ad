-- ===== src/Kafka/Brokers.antt =====
-- pkg/events/kafka/config.go: the configurations that `ConfigFromEnv` accepts.
use golang_rest_api_template.Base.{
  ℕ, ◌≤◌, ◌≡◌, refl, subst, inl, inr, false, List, [], ◌∷◌, arith, if◌then◌else◌, Bool-cases,
  length, All, Bytes, lit, is_empty, trim_space,
}
use golang_rest_api_template.Platform.{malformed, not_positive, positive}
use golang_rest_api_template.Result.{err, ok, ok-injective}
use golang_rest_api_template.Errors.{Error}
use golang_rest_api_template.Result.{Result, ok}
use golang_rest_api_template.Platform.{Duration, positive}
use golang_rest_api_template.Kafka.{
  Config, config_from_env, or_default, with_brokers, default_publish_timeout, timeout_from,
}
use golang_rest_api_template.Base.Split.{IsPart, trimmed_parts-split}

-- What `New` and `Publish` rely on.
pub record IsUsable (cfg : Config) : Type 0 where
  pub some_broker : 1 ≤ length cfg.brokers
  pub addresses : All (IsPart 44) cfg.brokers
  pub prefixed : is_empty cfg.topic_prefix ≡ false
  pub limited : 1 ≤ cfg.publish_timeout

or_default-filled :
    (default s : Bytes) → is_empty default ≡ false → is_empty (or_default default s) ≡ false
or_default-filled default s h = elim (Bool-cases (is_empty s)) [ inl e ↦ rw e h | inr e ↦ rw e e ]

-- `ParseDuration` gives what is above 0 as such.
unfoldable pub IsExact : (Bytes → Duration) → Type 0
IsExact parse_duration = (s : Bytes) (d : ℕ) → parse_duration s ≡ positive d → 1 ≤ d

with_timeout-IsUsable :
    (brokers : List Bytes) (prefix : Bytes) (timeout : Result Error ℕ) (cfg : Config)
    → All (IsPart 44) brokers
    → is_empty prefix ≡ false
    → ((d : ℕ) → timeout ≡ ok d → 1 ≤ d)
    → with_brokers brokers prefix timeout ≡ ok cfg
    → IsUsable cfg
with_timeout-IsUsable [] prefix timeout cfg parts filled limited e = absurd (cc)
with_timeout-IsUsable (b ∷ brokers) prefix (err c) cfg parts filled limited e = absurd (cc)
with_timeout-IsUsable (b ∷ brokers) prefix (ok d) cfg parts filled limited e =
    subst IsUsable (ok-injective e) (record {
      some_broker = omega arith;
      addresses = parts;
      prefixed = filled;
      limited = limited d refl;
    })

timed : (r : Duration) (d : ℕ) → ((n : ℕ) → r ≡ positive n → 1 ≤ n) → timeout_from r ≡ ok d → 1 ≤ d
timed malformed d h e = absurd (cc)
timed not_positive d h e = absurd (cc)
timed (positive n) d h e = let same = ok-injective e in omega (arith, h n refl)

timeout_from-pos :
    (parse_duration : Bytes → Duration) (s : Bytes) (d : ℕ)
    → IsExact parse_duration
    → (if is_empty s then ok default_publish_timeout else timeout_from (parse_duration s)) ≡ ok d
    → 1 ≤ d
unfolding IsExact
timeout_from-pos parse_duration s d exact e = elim (Bool-cases (is_empty s)) [
  | inl h ↦ let two = ok-injective (rw h at e) in omega (arith, two)
  | inr h ↦ timed (parse_duration s) d (exact s) (rw h at e)
]

-- A configuration that `ConfigFromEnv` accepts has at least one broker, each one trimmed, not
-- empty and without a comma, a topic prefix that is not empty, and a positive timeout. Condition:
-- what `ParseDuration` gives as positive is at least 1.
pub config_from_env-IsUsable :
    (getenv : Bytes → Bytes) (parse_duration : Bytes → Duration) (cfg : Config)
    → IsExact parse_duration
    → config_from_env getenv parse_duration ≡ ok cfg
    → IsUsable cfg
unfolding config_from_env
config_from_env-IsUsable getenv parse_duration cfg exact e =
    elim (Bool-cases (is_empty (trim_space (getenv (lit "KAFKA_BROKERS"))))) [
      | inl h ↦ absurd (cc (h, e))
      | inr h ↦
          with_timeout-IsUsable _ _ _ cfg
            (trimmed_parts-split 44 (trim_space (getenv (lit "KAFKA_BROKERS"))))
            (or_default-filled (lit "app") (trim_space (getenv (lit "KAFKA_TOPIC_PREFIX"))) refl)
            (λ d.
              timeout_from-pos parse_duration (trim_space (getenv (lit "KAFKA_PUBLISH_TIMEOUT"))) d
                exact)
            (rw h at e)
    ]
