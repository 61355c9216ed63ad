-- ===== src/Tracing/Variables.antt =====
-- pkg/tracing/provider.go: the package variables after `Init`.
use golang_rest_api_template.Base.{
  ◌≡◌, refl, sym, ap, true, is_some, ◌∙◌, inl, inr, Option, if◌then◌else◌, Bool-cases, Bytes,
  is_empty,
}
use golang_rest_api_template.Tracing.{Exporter, no_exporter, stdout, otlp, new_span_exporter}
use golang_rest_api_template.Errors.{Cause}
use golang_rest_api_template.Result.{ok, err, Result, ok-injective}
use golang_rest_api_template.Tracing.{
  Config, Sdk, Runtime, init, new_span_exporter, Exporter, set_runtime, default_service_name,
  some_exporter, provide, export, Provider, is_enabled, service_name_of,
}

-- What the SDK's calls leave alone, and the reading of what was put.
pub record RuntimeLaws {W E T : Type 0} (k : Sdk W E T) : Type 0 where
  pub runtime-put : (r : Runtime) (w : W) → k.runtime (k.put_runtime r w) ≡ r
  pub runtime-resource : (name : Bytes) (w : W) → k.runtime (k.new_resource name w).1 ≡ k.runtime w
  pub runtime-stdout : (w : W) → k.runtime (k.new_stdout_exporter w).1 ≡ k.runtime w
  pub runtime-otlp : (w : W) → k.runtime (k.new_otlp_exporter w).1 ≡ k.runtime w
  pub runtime-provider :
      (e : Option E) (w : W) → k.runtime (k.new_tracer_provider e w).1 ≡ k.runtime w

module _ {W E T : Type 0} (k : Sdk W E T) (laws : RuntimeLaws k) where
  some_exporter-runtime : (r : Result Cause E × W) → k.runtime (some_exporter k r).1 ≡ k.runtime r.1
  some_exporter-runtime (ok e, w) = refl
  some_exporter-runtime (err c, w) = refl

  provide-runtime : (r : Result Cause (Option E) × W) → k.runtime (provide k r).1 ≡ k.runtime r.1
  provide-runtime (ok e, w) = laws.runtime-provider e w
  provide-runtime (err c, w) = refl

  new_span_exporter-runtime :
      (x : Exporter) (w : W) → k.runtime (new_span_exporter k x w).1 ≡ k.runtime w
  unfolding new_span_exporter
  new_span_exporter-runtime no_exporter w = refl
  new_span_exporter-runtime stdout w =
      some_exporter-runtime (k.new_stdout_exporter w) ∙ laws.runtime-stdout w
  new_span_exporter-runtime otlp w =
      some_exporter-runtime (k.new_otlp_exporter w) ∙ laws.runtime-otlp w

  export-runtime :
      (x : Exporter) (r : Result Cause (Unit {0}) × W) → k.runtime (export k x r).1 ≡ k.runtime r.1
  unfolding export new_span_exporter
  export-runtime x (ok u, w) =
      provide-runtime (new_span_exporter k x w) ∙ new_span_exporter-runtime x w
  export-runtime x (err c, w) = refl

  -- The variables after `Init`, also after one that fails.
  init-runtime :
      (cfg : Config) (w : W)
      → k.runtime (init k cfg w).1 ≡ record {
        enabled = cfg.enabled;
        service = if is_empty cfg.service_name then default_service_name else cfg.service_name;
      }
  unfolding init set_runtime
  init-runtime cfg w = elim (Bool-cases cfg.enabled) [
    | inl on ↦ rw on (
        export-runtime cfg.exporter _
        ∙ laws.runtime-resource cfg.service_name _
        ∙ laws.runtime-put _ w)
    | inr off ↦ rw off (laws.runtime-put _ w)
  ]

  -- What a successful `Init` leaves.
  pub record IsInitialised (cfg : Config) (provider : Provider T) (w : W) : Type 0 where
    pub active : is_enabled k w ≡ cfg.enabled
    pub name :
        service_name_of k w
        ≡ (if is_empty cfg.service_name then default_service_name else cfg.service_name)
    pub owns : is_some provider.tp ≡ cfg.enabled

  provide-owns :
      (r : Result Cause (Option E) × W) (provider : Provider T)
      → (provide k r).0 ≡ ok provider
      → is_some provider.tp ≡ true
  provide-owns (ok e, w) provider h = let same = ok-injective h in rw (sym same) refl
  provide-owns (err c, w) provider h = absurd (cc h)

  export-owns :
      (x : Exporter) (r : Result Cause (Unit {0}) × W) (provider : Provider T)
      → (export k x r).0 ≡ ok provider
      → is_some provider.tp ≡ true
  unfolding export new_span_exporter
  export-owns x (ok u, w) provider h = provide-owns (new_span_exporter k x w) provider h
  export-owns x (err c, w) provider h = absurd (cc h)

  init-owns :
      (cfg : Config) (w : W) (provider : Provider T)
      → (init k cfg w).0 ≡ ok provider
      → is_some provider.tp ≡ cfg.enabled
  unfolding init set_runtime
  init-owns cfg w provider h = elim (Bool-cases cfg.enabled) [
    | inl on ↦ rw on (export-owns cfg.exporter _ provider (rw on at h))
    | inr off ↦ let same = ok-injective (rw off at h) in rw (off, sym same) refl
  ]

  -- After an `Init` that succeeds, `Enabled` and `ServiceName` give what the configuration says,
  -- with the default name for an empty one, and the returned provider owns a tracer provider
  -- exactly if tracing is enabled. Condition: the calls of the SDK do not write the package
  -- variables, which read back what is put.
  pub init-IsInitialised :
      (cfg : Config) (w : W) (provider : Provider T)
      → (init k cfg w).0 ≡ ok provider
      → IsInitialised cfg provider (init k cfg w).1
  unfolding is_enabled service_name_of
  init-IsInitialised cfg w provider h = record {
    active = ap (λ r. r.enabled) (init-runtime cfg w);
    name = ap (λ r. r.service) (init-runtime cfg w);
    owns = init-owns cfg w provider h;
  }
