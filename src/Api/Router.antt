-- ===== src/Api/Router.antt =====
-- pkg/api/router.go: the routes of `/api/v1`, the middleware in front of them, and the limit of a
-- body from the environment. gin finds the route; the third-party middleware (security, XSS, CORS,
-- and the logger and recovery of `gin.Default`) and `context.WithTimeout` are left open.
pub mod Access
pub mod Engine
use golang_rest_api_template.Base.{
  ℕ, Bool, Option, none, some, List, [], ◌∷◌, ◌++◌, ◌==◌, if◌then◌else◌, Bytes, lit, is_empty,
  trim_space,
}
use golang_rest_api_template.Base.Split.{split, trimmed_parts}
use golang_rest_api_template.Service.Events.{Publisher}
use golang_rest_api_template.Auth.Denylist.{TokenDenylist}
use golang_rest_api_template.Cache.{Cache}
use golang_rest_api_template.Middleware.Rbac.{require_role}
use golang_rest_api_template.Middleware.JwtAuth.{jwt_auth}
use golang_rest_api_template.Middleware.ApiKey.{api_key_auth}
use golang_rest_api_template.Middleware.MaxBody.{default_max_request_body_bytes, max_request_body}
use golang_rest_api_template.Middleware.RateLimit.{
  RateLimitStore, rate_limit_config_from_env, rate_limiter_from_env,
}
use golang_rest_api_template.Repository.Persistence.{
  UserPersistence, BookPersistence, RefreshTokenPersistence,
}
use golang_rest_api_template.Base.Integers.{ℤ, atoi}
use golang_rest_api_template.Http.{Context, Middleware, Handler, chain}
use golang_rest_api_template.Base.Integers.{ℤ, pos, negsuc}
use golang_rest_api_template.Middleware.RequestId.{request_id}
use golang_rest_api_template.Service.Books.{BooksJson}
use golang_rest_api_template.Api.Books
use golang_rest_api_template.Api.Books.{
  BookBinding, healthcheck, find_books, create_book, find_book, update_book, patch_book_handler,
}
use golang_rest_api_template.Api.Users.{
  UserBinding, login_handler, register_handler, refresh_handler, logout_handler, admin_me_handler,
}
use golang_rest_api_template.Platform.{Platform, Variable}
use golang_rest_api_template.Middleware.Metrics.{Series, metrics_from_env, metrics_middleware}
use golang_rest_api_template.Middleware.Spans.{Tracer, tracing}
use golang_rest_api_template.Middleware.AccessLog.{Observers, logger}
use golang_rest_api_template.Middleware.Timeout.{request_context_timeout_from_env}

-- The routes of the group `/api/v1`, each by its method and its path. The probes, the metrics and the
-- Swagger pages, which `NewRouter` registers beside them without a key, are not among them.
pub data Endpoint : Type 0 where
  get_root : Endpoint
  get_books : Endpoint
  post_books : Endpoint
  get_book : Endpoint
  put_book : Endpoint
  patch_book : Endpoint
  delete_book : Endpoint
  post_login : Endpoint
  post_register : Endpoint
  post_refresh : Endpoint
  post_logout : Endpoint
  get_admin_me : Endpoint

-- What `configureTrustedProxies` gives to `SetTrustedProxies`; `none` is nil.
unfoldable pub trusted_proxies : (Bytes → Bytes) → Option (List Bytes)
unfolding trim_space split trimmed_parts
trusted_proxies getenv =
    let raw = trim_space (getenv (lit "GIN_TRUSTED_PROXIES")) in
    if is_empty raw then none else some (trimmed_parts (split 44 raw))

-- The collaborators that `NewRouter` wires.
pub record Wiring (W : Type 0) : Type 0 where
  pub platform : Platform W
  pub json : BooksJson
  pub book_store : BookPersistence W
  pub user_store : UserPersistence W
  pub refresh_store : Option (RefreshTokenPersistence W)
  pub redis : Option (Cache W)
  pub publisher : Option (Publisher W)
  pub denylist : TokenDenylist W
  pub api_secret : Variable W Bytes
  pub book_binding : BookBinding
  pub user_binding : UserBinding

-- What the middleware of the engine call, and the middleware that the model leaves open.
pub record Surroundings (W : Type 0) : Type 0 where
  -- Whether `SetTrustedProxies` accepts the list.
  pub set_trusted_proxies : Option (List Bytes) → Bool
  pub full_path : Context → Bytes
  pub series : Variable W Series
  pub tracer : Tracer W
  pub observers : Observers W
  pub security : Middleware W
  pub xss : Middleware W
  pub cors : Middleware W
  pub with_timeout : ℕ → Middleware W
  pub release_mode : Bool

abbrev positive_int : Option ℤ → Option ℕ
positive_int none = none
positive_int (some (negsuc n)) = none
positive_int (some (pos n)) = if n == 0 then none else some n

-- `maxRequestBodyBytesFromEnv`; `none` is its panic.
unfoldable pub max_request_body_bytes_from_env : (Bytes → Bytes) → Option ℕ
unfolding trim_space atoi
max_request_body_bytes_from_env getenv =
    let s = trim_space (getenv (lit "REQUEST_MAX_BODY_BYTES")) in
    if is_empty s then some default_max_request_body_bytes else positive_int (atoi s)

module _ {W : Type 0} (app : Wiring W) where
  abbrev api_key : Middleware W
  api_key = api_key_auth app.api_secret

  abbrev jwt : Middleware W
  jwt = jwt_auth app.platform app.denylist

  -- The middleware that each route names.
  unfoldable pub guards : Endpoint → List (Middleware W)
  guards get_root = []
  guards get_books = api_key ∷ []
  guards post_books = api_key ∷ jwt ∷ []
  guards get_book = api_key ∷ []
  guards put_book = api_key ∷ jwt ∷ []
  guards patch_book = api_key ∷ jwt ∷ []
  guards delete_book = api_key ∷ jwt ∷ []
  guards post_login = api_key ∷ []
  guards post_register = api_key ∷ []
  guards post_refresh = api_key ∷ []
  guards post_logout = api_key ∷ jwt ∷ []
  guards get_admin_me = api_key ∷ jwt ∷ require_role (lit "admin" ∷ []) ∷ []

  abbrev on_books :
      (Platform W
        → BooksJson
        → BookPersistence W
        → Option (Cache W)
        → Option (Publisher W)
        → BookBinding
        → Handler W)
      → Handler W
  on_books handler =
      handler app.platform app.json app.book_store app.redis app.publisher app.book_binding

  abbrev on_users :
      (Platform W
        → UserPersistence W
        → Option (RefreshTokenPersistence W)
        → TokenDenylist W
        → UserBinding
        → Handler W)
      → Handler W
  on_users handler =
      handler app.platform app.user_store app.refresh_store app.denylist app.user_binding

  unfoldable handler_of : Endpoint → Handler W
  handler_of get_root = on_books healthcheck
  handler_of get_books = on_books find_books
  handler_of post_books = on_books create_book
  handler_of get_book = on_books find_book
  handler_of put_book = on_books update_book
  handler_of patch_book = on_books patch_book_handler
  handler_of delete_book = on_books Books.delete_book
  handler_of post_login = on_users login_handler
  handler_of post_register = on_users register_handler
  handler_of post_refresh = on_users refresh_handler
  handler_of post_logout = on_users logout_handler
  handler_of get_admin_me = on_users admin_me_handler

  -- A route behind the middleware of the engine.
  unfoldable pub serve : Endpoint → Handler W
  unfolding guards handler_of chain
  serve e = chain (guards e) (handler_of e)

  module _ (around : Surroundings W) (new_memory_store : RateLimitStore W) where
    abbrev getenv : Bytes → Bytes
    getenv = app.platform.getenv

    abbrev pub headers_of_release : List (Middleware W)
    headers_of_release = if around.release_mode then around.security ∷ around.xss ∷ [] else []

    abbrev rate_limiter : Middleware W
    rate_limiter =
        rate_limiter_from_env (rate_limit_config_from_env getenv app.platform.parse_duration)
          new_memory_store app.redis

    -- The middleware between the logger and the guards of a route.
    abbrev pub behind_logger : List (Middleware W)
    behind_logger =
        headers_of_release
        ++ around.cors
          ∷ rate_limiter
          ∷ request_context_timeout_from_env around.with_timeout getenv app.platform.parse_duration
          ∷ []

    unfoldable logged : Endpoint → Handler W
    unfolding serve chain
    logged e = logger around.observers (chain behind_logger (serve e))

    -- The middleware of the engine in the order of `Use`, of which the metrics, the tracing and the
    -- logger go on after the rest of the chain has answered.
    unfoldable pub engine : (max_bytes : ℕ) → Endpoint → Handler W
    unfolding logged chain
    engine max_bytes e =
        metrics_middleware app.platform.time_now around.full_path around.series
          (some (metrics_from_env getenv))
          (chain (max_request_body max_bytes ∷ request_id app.platform ∷ [])
            (tracing around.tracer (logged e)))

    -- `NewRouter`; `none` is a panic.
    unfoldable pub new_router : Option (Endpoint → Handler W)
    unfolding engine trusted_proxies max_request_body_bytes_from_env
    new_router =
        if around.set_trusted_proxies (trusted_proxies getenv)
        then elim (max_request_body_bytes_from_env getenv) [
          | none ↦ none
          | some max_bytes ↦ some (engine max_bytes)
        ]
        else none
