-- ===== src/Middleware/Metrics/Counted.antt =====
-- pkg/middleware/metrics.go: what a request adds to the series.
use golang_rest_api_template.Base.{
  ℕ, ◌+◌, ◌≡◌, refl, sym, ap, ◌∙◌, subst, true, false, some, [], ◌∷◌, ◌++◌, arith, length,
  length-append, Bytes,
}
use golang_rest_api_template.Platform.{Variable}
use golang_rest_api_template.Http.{Context, Handler}
use golang_rest_api_template.Middleware.Metrics.{
  Series, MetricsConfig, metrics_middleware, should_skip, route_of, count_request, finish, observe,
  begin,
}

-- What a counted request leaves, beside what the rest of the chain did.
pub record IsCounted (full_path : Context → Bytes) (c : Context) (before : Series) (status : ℕ)
    (after : Series) : Type 0 where
  pub one_more :
      after.requests ≡ before.requests ++ (c.request.method, route_of full_path c, status) ∷ []
  pub one_observation : length after.duration ≡ length before.duration + 1
  pub balanced : after.in_flight ≡ before.in_flight

observed-IsCounted :
    (full_path : Context → Bytes) (c : Context) (s : Series) (status elapsed : ℕ)
    → IsCounted full_path c s status
        (finish (observe c.request.method (route_of full_path c) status elapsed (begin s)))
observed-IsCounted full_path c s status elapsed = record {
  one_more = refl;
  one_observation = length-append s.duration _;
  balanced = omega arith;
}

module _ {W : Type 0} (time_now : W → ℕ × W) (full_path : Context → Bytes)
    (series : Variable W Series) where
  -- A variable reads back what is put, and the clock leaves it alone.
  pub record SeriesLaws : Type 0 where
    pub get-put : (s : Series) (w : W) → series.get (series.put s w) ≡ s
    pub get-time : (w : W) → series.get (time_now w).1 ≡ series.get w

  module _ (laws : SeriesLaws) (rest : Handler W)
      (keeps : (c : Context) (v : W) → series.get (rest c v).1 ≡ series.get v) where
    count_request-IsCounted :
        (c : Context) (w : W)
        → let (r, w') = count_request time_now full_path series rest c w in
          IsCounted full_path c (series.get w) r.status (series.get w')
    count_request-IsCounted c w =
        subst (IsCounted full_path c (series.get w) _)
          (sym (
            laws.get-put _ _
            ∙ ap finish (
                laws.get-put _ _
                ∙ ap (observe c.request.method (route_of full_path c) _ _)
                    (laws.get-time _ ∙ keeps c _ ∙ laws.get-time _ ∙ laws.get-put _ w))))
          (observed-IsCounted full_path c (series.get w) _ _)

    -- A request that the metrics middleware counts adds one increment with its method, its route
    -- and the status of its response, and one observation of the duration, and leaves the gauge of
    -- requests in flight as it was. Conditions: metrics are enabled and the path is not skipped;
    -- the rest of the chain does not change the series; the variable reads back what is put, and
    -- the clock leaves it alone.
    pub metrics_middleware-IsCounted :
        (m : MetricsConfig) (c : Context) (w : W)
        → m.enabled ≡ true
        → should_skip m c.request.path ≡ false
        → let (r, w') = metrics_middleware time_now full_path series (some m) rest c w in
          IsCounted full_path c (series.get w) r.status (series.get w')
    unfolding metrics_middleware
    metrics_middleware-IsCounted m c w on counted = rw (on, counted) (count_request-IsCounted c w)
