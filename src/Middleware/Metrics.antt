-- ===== src/Middleware/Metrics.antt =====
-- pkg/middleware/metrics.go: the configuration, and the middleware that counts requests. The registry
-- of Prometheus is the counts that it keeps.
pub mod Counted
use golang_rest_api_template.Base.{
  ℕ, ◌+◌, ◌-◌, Bool, true, false, not, ◌&&◌, Option, none, some, List, [], ◌∷◌, ◌++◌, if◌then◌else◌,
  any, Bytes, lit, ◌=s◌, is_empty, trim_space, to_lower, cut_prefix, is_some, contains,
}
use golang_rest_api_template.Platform.{Variable}
use golang_rest_api_template.Http.{Context, Handler, respond, empty}

abbrev pub default_metrics_path : Bytes
default_metrics_path = lit "/metrics"

abbrev unmatched_route_label : Bytes
unmatched_route_label = lit "unmatched"

pub record MetricsConfig : Type 0 where
  pub enabled : Bool
  pub path : Bytes

abbrev says_off : Bytes → Bool
says_off s = any (λ w. w =s s) (lit "0" ∷ lit "false" ∷ lit "no" ∷ lit "off" ∷ lit "none" ∷ [])

-- The words for yes and the unknown ones both leave the default, true.
abbrev enabled_from : Bytes → Bool
enabled_from s = if is_empty s then true else not (says_off (to_lower s))

abbrev pub valid_path : Bytes → Bool
valid_path s = is_some (cut_prefix (lit "/") s) && not (contains s (lit " "))

abbrev pub path_from : Bytes → Bytes
unfolding cut_prefix contains
path_from s =
    if is_empty s then default_metrics_path else if valid_path s then s else default_metrics_path

unfoldable metrics_config_from_env : (Bytes → Bytes) → MetricsConfig
unfolding trim_space to_lower cut_prefix contains
metrics_config_from_env getenv = record {
  enabled = enabled_from (trim_space (getenv (lit "METRICS_ENABLED")));
  path = path_from (trim_space (getenv (lit "METRICS_PATH")));
}

-- `http_requests_total` by its increments, each with its method, path and status;
-- `http_request_duration_seconds` by its observations; and the gauge `http_requests_in_flight`.
pub record Series : Type 0 where
  pub requests : List (Bytes × Bytes × ℕ)
  pub duration : List (Bytes × Bytes × ℕ)
  pub in_flight : ℕ

-- A nil `*Metrics` is `none`.
abbrev pub new_metrics : MetricsConfig → MetricsConfig
new_metrics cfg = if is_empty cfg.path then record cfg { path = default_metrics_path } else cfg

unfoldable pub metrics_from_env : (Bytes → Bytes) → MetricsConfig
unfolding metrics_config_from_env
metrics_from_env getenv = new_metrics (metrics_config_from_env getenv)

unfoldable pub enabled : Option MetricsConfig → Bool
enabled none = false
enabled (some m) = m.enabled

unfoldable path_of : Option MetricsConfig → Bytes
path_of none = default_metrics_path
path_of (some m) = if is_empty m.path then default_metrics_path else m.path

-- The path that `Mount` registers, where it registers one.
unfoldable mount : Option MetricsConfig → Option Bytes
mount none = none
mount (some m) = if m.enabled then some m.path else none

-- `Handler`, given the handler of the Prometheus library over the registry, which `NewMetrics`
-- makes where metrics are enabled.
unfoldable scrape_handler : {W : Type 0} → (promhttp : Handler W) → Option MetricsConfig → Handler W
scrape_handler promhttp none c w = (respond c 404 empty, w)
scrape_handler promhttp (some m) c w = if m.enabled then promhttp c w else (respond c 404 empty, w)

unfoldable pub should_skip : MetricsConfig → Bytes → Bool
unfolding cut_prefix
should_skip m path = if path =s m.path then true else is_some (cut_prefix (lit "/swagger") path)

abbrev pub route_of : (full_path : Context → Bytes) → Context → Bytes
route_of full_path c = if is_empty (full_path c) then unmatched_route_label else full_path c

abbrev pub begin : Series → Series
begin s = record s { in_flight = s.in_flight + 1 }

abbrev pub observe : (method route : Bytes) (status elapsed : ℕ) → Series → Series
observe method route status elapsed s = record s {
  requests = s.requests ++ (method, route, status) ∷ [];
  duration = s.duration ++ (method, route, elapsed) ∷ [];
}

-- The gauge is above 0 here, since the request's own increment precedes.
abbrev pub finish : Series → Series
finish s = record s { in_flight = s.in_flight - 1 }

-- `full_path` is gin's pattern of the route, the empty string where none matches.
module _ {W : Type 0} (time_now : W → ℕ × W) (full_path : Context → Bytes)
    (series : Variable W Series) where
  abbrev pub update : (Series → Series) → W → W
  update f w = series.put (f (series.get w)) w

  abbrev pub count_request : Handler W → Handler W
  count_request rest c w =
      let (start, w1) = time_now (update begin w) in
      let (r, w2) = rest c w1 in
      let (end, w3) = time_now w2 in
      (
        r,
        update finish
            (update (observe c.request.method (route_of full_path c) r.status (end - start)) w3),
      )

  unfoldable pub metrics_middleware : Option MetricsConfig → Handler W → Handler W
  unfolding should_skip cut_prefix
  metrics_middleware none rest c w = rest c w
  metrics_middleware (some m) rest c w =
      if m.enabled
      then if should_skip m c.request.path then rest c w else count_request rest c w
      else rest c w
