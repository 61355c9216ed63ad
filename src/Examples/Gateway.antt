-- ===== src/Examples/Gateway.antt =====
-- A router with every middleware in place, and a request through it.
use golang_rest_api_template.Base.{ap, sym, ◌⊎◌, ◌≡◌, refl, some, [], arith, lit, true}
use golang_rest_api_template.Http.{next, Handler, Middleware}
use golang_rest_api_template.Result.{ok}
use golang_rest_api_template.Examples.World.{World, key_32}
use golang_rest_api_template.Examples.Requests
use golang_rest_api_template.Examples.Requests.{app, context}
use golang_rest_api_template.Examples.Traffic.{silent_tracer, silent_observers}
use golang_rest_api_template.Middleware.Metrics.{metrics_middleware, metrics_from_env}
use golang_rest_api_template.Middleware.MaxBody.{max_request_body}
use golang_rest_api_template.Middleware.RequestId.{request_id}
use golang_rest_api_template.Middleware.Spans.{tracing}
use golang_rest_api_template.Middleware.AccessLog.{logger}
use golang_rest_api_template.Middleware.RateLimit.{
  RateLimitStore, rate_limiter_from_env, rate_limit_config_from_env,
}
use golang_rest_api_template.Middleware.Timeout.{request_context_timeout_from_env}
use golang_rest_api_template.Middleware.ApiKey.{api_key_auth, constant_time_api_key_equal}
use golang_rest_api_template.Middleware.JwtAuth.{jwt_auth}
use golang_rest_api_template.Middleware.Rbac.{require_role}
use golang_rest_api_template.Auth.Roles.{valid_role}
use golang_rest_api_template.Api.Users.{admin_me_handler}
use golang_rest_api_template.Api.Router.{
  Endpoint, get_admin_me, Wiring, Surroundings, engine, new_router, trusted_proxies,
  max_request_body_bytes_from_env,
}
use golang_rest_api_template.Api.Router.Engine.{
  KeepsHeaders, AroundLaws, Ended, Arrived, new_router-Outcome,
}
use golang_rest_api_template.Http.Guard.{next-injective}

abbrev gateway : Wiring World
gateway = record app { api_secret = record { get = λ w. key_32; put = λ k w. w } }

abbrev onward : Middleware World
onward c w = (next c, w)

abbrev around : Surroundings World
around = record {
  set_trusted_proxies = λ l. true;
  full_path = λ c. lit "/api/v1/admin/me";
  series = record {
    get = λ w. record { requests = []; duration = []; in_flight = 0 };
    put = λ s w. w;
  };
  tracer = silent_tracer;
  observers = silent_observers;
  security = onward;
  xss = onward;
  cors = onward;
  with_timeout = λ d. onward;
  release_mode = true;
}

onward-KeepsHeaders : KeepsHeaders onward
onward-KeepsHeaders c c' w e = ap (λ x. x.request.header) (sym (next-injective e))

around-AroundLaws : AroundLaws around
around-AroundLaws = record {
  security_keeps = onward-KeepsHeaders;
  xss_keeps = onward-KeepsHeaders;
  cors_keeps = onward-KeepsHeaders;
  timeout_keeps = λ d. onward-KeepsHeaders;
}

abbrev generous : RateLimitStore World
generous key limit window w = (ok (record { allowed = true; remaining = 5 }), w)

abbrev routes : Endpoint → Handler World
routes = engine gateway around generous 1048576

built : new_router gateway around generous ≡ some routes
unfolding new_router trusted_proxies max_request_body_bytes_from_env
built = refl

routed_status : (routes get_admin_me context Requests.start).0.status ≡ 200
unfolding engine metrics_middleware metrics_from_env max_request_body request_id tracing logger
    rate_limiter_from_env rate_limit_config_from_env request_context_timeout_from_env api_key_auth
    constant_time_api_key_equal jwt_auth valid_role require_role admin_me_handler
routed_status = refl

new_router-Outcome_example :
    Ended around context.request.header (routes get_admin_me context Requests.start).0
    ⊎ Arrived gateway get_admin_me context.request.header
        (routes get_admin_me context Requests.start).0
new_router-Outcome_example =
    new_router-Outcome gateway around generous around-AroundLaws context.request.header
      (λ w. omega arith) get_admin_me (λ e. cc e) (omega arith) routes context Requests.start built
      refl (rw routed_status (omega arith))
