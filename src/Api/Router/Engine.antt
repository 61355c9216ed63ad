-- ===== src/Api/Router/Engine.antt =====
-- pkg/api/router.go: the requests that reach the handlers through the middleware of the engine.
use golang_rest_api_template.Base.{
  arith, Bool, true, false, List, if◌then◌else◌, ℕ, ◌≤◌, ◌⊎◌, subst, ◌<◌, ◌≡◌, refl, sym, ap, ◌∙◌,
  ◌≢◌, inl, inr, some, [], ◌∷◌, All, All-append, length, lit, Bool-cases, Option-cases, Bytes,
}
use mathlib.Core.Option.{some-injective}
use golang_rest_api_template.Http.{Context, Response, abort, next, Middleware, Handler, chain}
use golang_rest_api_template.Http.Guard.{Step-cases}
use golang_rest_api_template.Http.Onward.{IsOnward, chain-onward}
use golang_rest_api_template.Platform.{Variable}
use golang_rest_api_template.Middleware.Onward.{
  max_request_body-IsOnward, request_id-IsOnward, request_context_timeout_from_env-IsOnward,
}
use golang_rest_api_template.Middleware.MaxBody.{max_request_body}
use golang_rest_api_template.Middleware.RequestId.{request_id}
use golang_rest_api_template.Middleware.RateLimit.{RateLimitStore}
use golang_rest_api_template.Middleware.RateLimit.Refusal.{rate_limiter_from_env-IsOnward}
use golang_rest_api_template.Middleware.Metrics.{
  Series, MetricsConfig, metrics_from_env, metrics_middleware, should_skip, update, begin,
}
use golang_rest_api_template.Middleware.Spans.{Tracer, tracing}
use golang_rest_api_template.Middleware.AccessLog.{Observers, logger}
use golang_rest_api_template.Api.Router.{
  Endpoint, get_root, Wiring, Surroundings, serve, logged, engine, new_router, headers_of_release,
  behind_logger, trusted_proxies, max_request_body_bytes_from_env,
}
use golang_rest_api_template.Api.Router.Access.{Admitted, serve-Admitted}

-- The response is that of the rest of the chain, in some world.
module _ {W : Type 0} (rest : Handler W) (c : Context) (w : W) where
  metrics_middleware-answer :
      (time_now : W → ℕ × W) (full_path : Context → Bytes) (series : Variable W Series)
      (m : MetricsConfig)
      → (w' : W) × ((metrics_middleware time_now full_path series (some m) rest c w).0
          ≡ (rest c w').0)
  unfolding metrics_middleware
  metrics_middleware-answer time_now full_path series m = elim (Bool-cases m.enabled) [
    | inr e ↦ (w, rw e refl)
    | inl e ↦ elim (Bool-cases (should_skip m c.request.path)) [
      | inl skip ↦ (w, rw (e, skip) refl)
      | inr count ↦ ((time_now (update time_now full_path series begin w)).1, rw (e, count) refl)
    ]
  ]

  tracing-answer : (t : Tracer W) → (w' : W) × ((tracing t rest c w).0 ≡ (rest c w').0)
  unfolding tracing
  tracing-answer t = (_, refl)

  logger-answer : (o : Observers W) → (w' : W) × ((logger o rest c w).0 ≡ (rest c w').0)
  unfolding logger
  logger-answer o = (_, refl)

All-if :
    {A : Type 0} (P : A → Type 0) (b : Bool) (xs : List A) → All P xs → All P (if b then xs else [])
All-if P true xs h = h
All-if P false xs h = tt

-- A third-party middleware lets a request go on with the headers it came with.
abbrev pub KeepsHeaders : {W : Type 0} → Middleware W → Type 0
KeepsHeaders {W} m =
    (c c' : Context) (w : W) → (m c w).0 ≡ next c' → c'.request.header ≡ c.request.header

pub record AroundLaws {W : Type 0} (around : Surroundings W) : Type 0 where
  pub security_keeps : KeepsHeaders around.security
  pub xss_keeps : KeepsHeaders around.xss
  pub cors_keeps : KeepsHeaders around.cors
  pub timeout_keeps : (d : ℕ) → KeepsHeaders (around.with_timeout d)

-- A third-party middleware ends a request with these headers by this answer.
pub data Ended {W : Type 0} (around : Surroundings W) (h : Bytes → Bytes) (r : Response)
    : Type 0 where
  by_security :
      (c : Context) (w : W)
      → c.request.header ≡ h
      → (around.security c w).0 ≡ abort r
      → Ended around h r
  by_xss :
      (c : Context) (w : W) → c.request.header ≡ h → (around.xss c w).0 ≡ abort r → Ended around h r
  by_cors :
      (c : Context) (w : W)
      → c.request.header ≡ h
      → (around.cors c w).0 ≡ abort r
      → Ended around h r
  by_timeout :
      (d : ℕ) (c : Context) (w : W)
      → c.request.header ≡ h
      → (around.with_timeout d c w).0 ≡ abort r
      → Ended around h r

-- The answer is that of the guards and the handler of the route, which admitted a request with the
-- same headers.
pub record Arrived {W : Type 0} (app : Wiring W) (e : Endpoint) (h : Bytes → Bytes) (r : Response)
    : Type 0 where
  pub context : Context
  pub world : W
  pub same_headers : context.request.header ≡ h
  pub same_answer : r ≡ (serve app e context world).0
  pub admitted : Admitted app e context world

module _ {W : Type 0} (app : Wiring W) (around : Surroundings W)
    (new_memory_store : RateLimitStore W) (laws : AroundLaws around) (h : Bytes → Bytes) where
  abbrev Ending : Response → Type 0
  Ending r = (400 ≤ r.status) ⊎ Ended around h r

  refuses : (r : Response) → 400 ≤ r.status → Ending r
  refuses r k = inl k

  third-IsOnward :
      (m : Middleware W)
      → KeepsHeaders m
      → ((c : Context) (w : W) (r : Response)
          → c.request.header ≡ h
          → (m c w).0 ≡ abort r
          → Ended around h r)
      → IsOnward Ending h m
  third-IsOnward m keeps ended c w same = elim (Step-cases (m c w).0) [
    | inl (r, e) ↦ rw e (inr (ended c w r same e))
    | inr (c', e) ↦ rw e (keeps c c' w e ∙ same)
  ]

  headers_of_release-IsOnward :
      All (IsOnward Ending h) (headers_of_release app around new_memory_store)
  headers_of_release-IsOnward =
      All-if (IsOnward Ending h) around.release_mode (around.security ∷ around.xss ∷ []) (
        third-IsOnward around.security laws.security_keeps (λ c w r s a. by_security c w s a),
        (third-IsOnward around.xss laws.xss_keeps (λ c w r s a. by_xss c w s a), tt),
      )

  behind_logger-IsOnward : All (IsOnward Ending h) (behind_logger app around new_memory_store)
  behind_logger-IsOnward =
      All-append (IsOnward Ending h) (headers_of_release app around new_memory_store) _
        headers_of_release-IsOnward
        (
          third-IsOnward around.cors laws.cors_keeps (λ c w r s a. by_cors c w s a),
          (
            rate_limiter_from_env-IsOnward Ending h refuses _ new_memory_store app.redis,
            (
              request_context_timeout_from_env-IsOnward Ending h refuses around.with_timeout _ _
                  (λ d.
                    third-IsOnward (around.with_timeout d) (laws.timeout_keeps d)
                      (λ c w r s a. by_timeout d c w s a)),
              tt,
            ),
          ),
        )

  module _ (secrets : (w : W) → length (app.api_secret.get w) < 18446744073709551616) (e : Endpoint)
      (guarded : e ≢ get_root) (short : length (h (lit "X-API-Key")) < 18446744073709551616) where
    abbrev Outcome : Response → Type 0
    Outcome r = Ended around h r ⊎ Arrived app e h r

    logged-Outcome :
        (c : Context) (w : W)
        → c.request.header ≡ h
        → (logged app around new_memory_store e c w).0.status < 400
        → Outcome (logged app around new_memory_store e c w).0
    unfolding logged
    logged-Outcome c w same low =
        let rest = chain (behind_logger app around new_memory_store) (serve app e) in
        let (w1, answer) = logger-answer rest c w around.observers in
        elim (chain-onward Ending h (behind_logger app around new_memory_store) (serve app e) c w1
          behind_logger-IsOnward same) [
            | inl (inl high) ↦ let k = rw answer at low in absurd (omega arith)
            | inl (inr ended) ↦ inl (rw answer ended)
            | inr (c', (w', (headers, served))) ↦ inr (record {
              context = c';
              world = w';
              same_headers = headers;
              same_answer = answer ∙ served;
              admitted =
                  serve-Admitted app c' w' (rw (ap (λ f. f (lit "X-API-Key")) headers) short)
                    (secrets w') e guarded (rw (answer ∙ served) at low);
            })
          ]

    engine-Outcome :
        (c : Context) (w : W) (max_bytes : ℕ)
        → c.request.header ≡ h
        → (engine app around new_memory_store max_bytes e c w).0.status < 400
        → Outcome (engine app around new_memory_store max_bytes e c w).0
    unfolding engine
    engine-Outcome c w max_bytes same low =
        let m = metrics_from_env app.platform.getenv in
        let ms = max_request_body max_bytes ∷ request_id app.platform ∷ [] in
        let inner = logged app around new_memory_store e in
        let traced = tracing around.tracer inner in
        let (w1, counted) =
          metrics_middleware-answer (chain ms traced) c w app.platform.time_now around.full_path
            around.series m in
        elim (chain-onward Ending h ms traced c w1
          (
            max_request_body-IsOnward Ending h refuses max_bytes,
            (request_id-IsOnward Ending h refuses app.platform, tt),
          )
          same) [
            | inl (inl high) ↦ let k = rw counted at low in absurd (omega arith)
            | inl (inr ended) ↦ inl (rw counted ended)
            | inr (c2, (w2, (headers, passed))) ↦
                let (w3, spanned) = tracing-answer inner c2 w2 around.tracer in
                let answer = counted ∙ passed ∙ spanned in
                subst Outcome (sym answer) (logged-Outcome c2 w3 headers (rw answer at low))
          ]

    -- If `NewRouter` does not panic, an answer below 400 on a route of `/api/v1` other than its
    -- health check is the answer of the guards and the handler of that route, in a world in which
    -- they admit a request with the same headers (its `X-API-Key` is the secret, and the bearer
    -- token is verified and of an administrator where the route asks for that); or it is an answer
    -- with which a third-party middleware (security, XSS, CORS, the timeout) itself ends a request
    -- with these headers. Conditions: a third-party middleware that lets a request go on keeps its
    -- headers; the header and the secret are shorter than 2^64 bytes.
    pub new_router-Outcome :
        (routes : Endpoint → Handler W) (c : Context) (w : W)
        → new_router app around new_memory_store ≡ some routes
        → c.request.header ≡ h
        → (routes e c w).0.status < 400
        → Ended around h (routes e c w).0 ⊎ Arrived app e h (routes e c w).0
    unfolding new_router
    new_router-Outcome routes c w built same low =
        let getenv = app.platform.getenv in
        elim (Bool-cases (around.set_trusted_proxies (trusted_proxies getenv))) [
          | inr e1 ↦ absurd (cc (rw e1 at built))
          | inl e1 ↦ elim (Option-cases (max_request_body_bytes_from_env getenv)) [
            | inl e2 ↦ absurd (cc (rw (e1, e2) at built))
            | inr (n, e2) ↦
                let made = some-injective _ _ (rw (e1, e2) at built) in
                subst (λ f. Outcome (f e c w).0) made
                  (engine-Outcome c w n same (rw (sym made) at low))
          ]
        ]
