-- ===== src/Tracing.antt =====
-- pkg/tracing: the configuration from the environment, and the provider with the package variables
-- that the middleware reads. The OpenTelemetry SDK is a parameter.
pub mod Variables
use golang_rest_api_template.Base.{
  Bool, true, Option, none, some, [], ◌∷◌, if◌then◌else◌, any, Bytes, lit, ◌=s◌, is_empty,
  trim_space, to_lower,
}
use golang_rest_api_template.Result.{Result, ok, err, Io}
use golang_rest_api_template.Errors.{Cause}

abbrev pub default_service_name : Bytes
default_service_name = lit "golang-rest-api-template"

pub data Exporter : Type 0 where
  otlp stdout no_exporter : Exporter

pub record Config : Type 0 where
  pub enabled : Bool
  pub service_name : Bytes
  pub exporter : Exporter

unfoldable pub env_truthy : Bytes → Bool
unfolding trim_space to_lower
env_truthy v =
    let s = to_lower (trim_space v) in
    any (λ w. w =s s) (lit "1" ∷ lit "true" ∷ lit "yes" ∷ lit "on" ∷ [])

-- The empty text and an unknown one mean "otlp".
abbrev pub exporter_of : Bytes → Exporter
exporter_of s = if s =s lit "stdout" then stdout else if s =s lit "none" then no_exporter else otlp

unfoldable pub config_from_env : (Bytes → Bytes) → Config
unfolding env_truthy trim_space to_lower
config_from_env getenv =
    let name = trim_space (getenv (lit "OTEL_SERVICE_NAME")) in
    record {
      enabled = env_truthy (getenv (lit "OTEL_TRACES_ENABLED"));
      service_name = if is_empty name then default_service_name else name;
      exporter = exporter_of (to_lower (trim_space (getenv (lit "OTEL_TRACES_EXPORTER"))));
    }

-- The package variables `enabled` and `service`.
pub record Runtime : Type 0 where
  pub enabled : Bool
  pub service : Bytes

-- A provider with the SDK's one, or with nil.
pub record Provider (T : Type 0) : Type 0 where
  pub tp : Option T

-- `resource.New`, the two exporters, the SDK's provider, which becomes the global one, and its
-- `Shutdown`.
pub record Sdk (W E T : Type 0) : Type 0 where
  pub new_resource : Bytes → Io W Cause (Unit {0})
  pub new_stdout_exporter : Io W Cause E
  pub new_otlp_exporter : Io W Cause E
  pub new_tracer_provider : Option E → W → T × W
  pub shutdown : T → Io W Cause (Unit {0})
  pub runtime : W → Runtime
  pub put_runtime : Runtime → W → W

module _ {W E T : Type 0} (k : Sdk W E T) where
  unfoldable pub set_runtime : Bool → Bytes → W → W
  set_runtime on name =
      k.put_runtime
        (record { enabled = on; service = if is_empty name then default_service_name else name })

  unfoldable is_enabled : W → Bool
  is_enabled w = (k.runtime w).enabled

  unfoldable service_name_of : W → Bytes
  service_name_of w = (k.runtime w).service

  abbrev pub some_exporter : Result Cause E × W → Result Cause (Option E) × W
  some_exporter (ok e, w) = (ok (some e), w)
  some_exporter (err c, w) = (err c, w)

  unfoldable pub new_span_exporter : Exporter → Io W Cause (Option E)
  new_span_exporter no_exporter w = (ok none, w)
  new_span_exporter stdout w = some_exporter (k.new_stdout_exporter w)
  new_span_exporter otlp w = some_exporter (k.new_otlp_exporter w)

  abbrev pub provide : Result Cause (Option E) × W → Result Cause (Provider T) × W
  provide (err c, w) = (err c, w)
  provide (ok e, w) = let (tp, w') = k.new_tracer_provider e w in (ok (record { tp = some tp }), w')

  abbrev pub export : Exporter → Result Cause (Unit {0}) × W → Result Cause (Provider T) × W
  unfolding new_span_exporter
  export kind (err c, w) = (err c, w)
  export kind (ok u, w) = provide (new_span_exporter kind w)

  -- `Init`.
  unfoldable pub init : Config → Io W Cause (Provider T)
  unfolding set_runtime new_span_exporter
  init cfg w =
      let w1 = set_runtime cfg.enabled cfg.service_name w in
      if cfg.enabled
      then export cfg.exporter (k.new_resource cfg.service_name w1)
      else (ok (record { tp = none }), w1)

  -- `Shutdown` of a provider that may be nil.
  unfoldable pub shutdown : Option (Provider T) → Io W Cause (Unit {0})
  shutdown none w = (ok tt, w)
  shutdown (some p) w = elim p.tp [ none ↦ (ok tt, w) | some tp ↦ k.shutdown tp w ]
