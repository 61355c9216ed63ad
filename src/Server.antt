-- ===== src/Server.antt =====
-- cmd/server/main.go: the order of the start, the deferred calls, and the end of the process. What a
-- call does is in the other modules; here it is one action, and whether its error is nil.
pub mod Closing
use golang_rest_api_template.Base.{Bool, true, false, List, [], ◌∷◌, ◌++◌, if◌then◌else◌}

pub data Action : Type 0 where
  set_jwt_signing_key set_api_secret_key init_tracing new_redis_client setup_mongo_db : Action
  new_publisher new_logger new_database new_router listen_and_serve shutdown_server : Action
  close_database sync_logger close_publisher shutdown_tracing : Action

-- How the listener ends: by itself with an error, by itself with `ErrServerClosed` or none, or after a
-- signal.
pub data Serving : Type 0 where
  failed closed signalled : Serving

pub data End : Type 0 where
  returned fatal panicked : End

-- The deferred calls, the last one first.
pub record Process : Type 0 where
  pub trace : List Action
  pub deferred : List Action

-- A call of the start: whether it succeeds, and the call that is deferred then.
pub record Setup : Type 0 where
  pub succeeds : Bool
  pub action : Action
  pub defers : List Action

-- What the calls of the start answer; `api.NewRouter` panics where `router_ok` is false.
pub record Answers : Type 0 where
  pub jwt_key_valid : Bool
  pub api_key_valid : Bool
  pub tracing_ok : Bool
  pub redis_ok : Bool
  pub mongo_ok : Bool
  pub publisher_ok : Bool
  pub logger_ok : Bool
  pub database_ok : Bool
  pub router_ok : Bool

abbrev pub setup : Bool → Action → List Action → Setup
setup succeeds action defers = record { succeeds = succeeds; action = action; defers = defers }

unfoldable setups : Answers → List Setup
setups a =
    setup a.jwt_key_valid set_jwt_signing_key []
    ∷ setup a.api_key_valid set_api_secret_key []
    ∷ setup a.tracing_ok init_tracing (shutdown_tracing ∷ [])
    ∷ setup a.redis_ok new_redis_client []
    ∷ setup a.mongo_ok setup_mongo_db []
    ∷ setup a.publisher_ok new_publisher (close_publisher ∷ [])
    ∷ setup a.logger_ok new_logger (sync_logger ∷ [])
    ∷ setup a.database_ok new_database (close_database ∷ [])
    ∷ []

abbrev pub doing : Action → Process → Process
doing action p = record p { trace = p.trace ++ action ∷ [] }

-- `log.Fatalf` ends the process and runs no deferred call.
abbrev pub die : Process → End × List Action
die p = (fatal, p.trace)

-- The return of `main` runs the deferred calls.
abbrev pub return : Process → End × List Action
return p = (returned, p.trace ++ p.deferred)

unfoldable pub serve : Serving → Process → End × List Action
serve failed p = die (doing listen_and_serve p)
serve closed p = return (doing listen_and_serve p)
serve signalled p = return (doing shutdown_server (doing listen_and_serve p))

-- `api.NewRouter`, and what follows. A panic runs the deferred calls and ends the process.
unfoldable pub route : Bool → Serving → Process → End × List Action
unfolding serve
route router_ok how p =
    let q = doing new_router p in
    if router_ok then serve how q else (panicked, q.trace ++ q.deferred)

unfoldable pub start : List Setup → Bool → Serving → Process → End × List Action
unfolding route
start [] router_ok how p = route router_ok how p
start (s ∷ rest) router_ok how p =
    let tried = doing s.action p in
    let on = start rest router_ok how (record tried { deferred = s.defers ++ p.deferred }) in
    if s.succeeds then on else die tried

unfoldable pub main : Answers → Serving → End × List Action
unfolding start setups
main a how = start (setups a) a.router_ok how (record { trace = []; deferred = [] })

-- `syscall.Errno` of an error of `Sync`, also within an `os.PathError`.
pub data SyncError : Type 0 where
  no_error einval ebadf path_einval path_ebadf other_error : SyncError

unfoldable ignorable_zap_sync_err : SyncError → Bool
ignorable_zap_sync_err other_error = false
ignorable_zap_sync_err _ = true
