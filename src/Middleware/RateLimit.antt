-- ===== src/Middleware/RateLimit.antt =====
-- pkg/middleware/rate_limit.go: the configuration, the two stores and the middleware.
pub mod Window
pub mod Refusal
use golang_rest_api_template.Base.{
  ℕ, ◌+◌, ◌-◌, ◌*◌, ◌/◌, Bool, true, false, not, Option, none, some, List, [], ◌∷◌, ◌++◌, ltb, leb,
  ◌==◌, if◌then◌else◌, find, filter, any, Bytes, lit, ◌=s◌, is_empty, trim_space, to_lower,
  format_uint,
}
use golang_rest_api_template.Base.Integers.{ℤ, pos, negsuc, atoi, positive_or}
use golang_rest_api_template.Result.{Result, ok, err, Io, map_err, ◌>>=◌, pure}
use golang_rest_api_template.Errors.{Error, cause}
use golang_rest_api_template.Platform.{Duration, malformed, not_positive, positive}
use golang_rest_api_template.Cache.{Cache}
use golang_rest_api_template.Auth.Tokens.{second}
use golang_rest_api_template.Http.{Context, Step, abort, next, Middleware, write_error, set_header}

pub data Backend : Type 0 where
  redis memory : Backend

pub record RateLimitConfig : Type 0 where
  pub enabled : Bool
  pub requests : ℕ
  pub window : ℕ
  pub backend : Backend

abbrev pub default_requests : ℕ
default_requests = 60

abbrev pub default_window : ℕ
default_window = 60 * second

-- The two lists of words of the switches; any other word keeps the default.
abbrev pub says_no : Bytes → Bool
says_no s = any (λ w. w =s s) (lit "0" ∷ lit "false" ∷ lit "no" ∷ lit "off" ∷ lit "none" ∷ [])

abbrev enabled_from : Bytes → Bool
enabled_from s = if is_empty s then true else not (says_no (to_lower s))

abbrev requests_from : Bytes → ℕ
requests_from s = if is_empty s then default_requests else positive_or default_requests (atoi s)

abbrev window_of : Duration → ℕ
window_of (positive d) = if d == 0 then default_window else d
window_of malformed = default_window
window_of not_positive = default_window

abbrev backend_of : Bytes → Backend
backend_of s = if s =s lit "memory" then memory else redis

unfoldable pub rate_limit_config_from_env : (Bytes → Bytes) → (Bytes → Duration) → RateLimitConfig
unfolding trim_space to_lower atoi
rate_limit_config_from_env getenv parse_duration =
    let window = trim_space (getenv (lit "RATE_LIMIT_WINDOW")) in
    record {
      enabled = enabled_from (trim_space (getenv (lit "RATE_LIMIT_ENABLED")));
      requests = requests_from (trim_space (getenv (lit "RATE_LIMIT_REQUESTS")));
      window = if is_empty window then default_window else window_of (parse_duration window);
      backend = backend_of (to_lower (trim_space (getenv (lit "RATE_LIMIT_BACKEND"))));
    }

-- The outcome of `Allow`: whether the request is allowed, and how many remain.
pub record Verdict : Type 0 where
  pub allowed : Bool
  pub remaining : ℕ

abbrev verdict : ℕ → ℕ → Verdict
verdict count limit =
    if ltb limit count
    then record { allowed = false; remaining = 0 }
    else record { allowed = true; remaining = limit - count }

-- `memoryWindow`, with the client's key.
pub record MemoryWindow : Type 0 where
  pub key : Bytes
  pub count : ℕ
  pub reset : ℕ

-- `!now.Before(w.reset)`.
abbrev pub is_over : ℕ → MemoryWindow → Bool
is_over now w = leb w.reset now

unfoldable pub prune_expired : ℕ → List MemoryWindow → List MemoryWindow
prune_expired now = filter (λ w. not (is_over now w))

-- `s.windows[key]`, and a write to it.
abbrev pub window_at : Bytes → List MemoryWindow → Option MemoryWindow
window_at key = find (λ w. w.key =s key)

unfoldable put_window : MemoryWindow → List MemoryWindow → List MemoryWindow
put_window w [] = w ∷ []
put_window w (v ∷ vs) = if v.key =s w.key then w ∷ vs else v ∷ put_window w vs

abbrev fresh_window : Bytes → ℕ → MemoryWindow
fresh_window key reset = record { key = key; count = 0; reset = reset }

abbrev current_window : Bytes → ℕ → ℕ → Option MemoryWindow → MemoryWindow
current_window key now window none = fresh_window key (now + window)
current_window key now window (some w) =
    if is_over now w then fresh_window key (now + window) else w

-- `Allow` of the memory store, past the check of the context.
unfoldable memory_allow :
    (key : Bytes) (limit window now : ℕ) → List MemoryWindow → Verdict × List MemoryWindow
unfolding prune_expired put_window
memory_allow key limit window now windows =
    let pruned = prune_expired now windows in
    let w = current_window key now window (window_at key pruned) in
    let counted = record w { count = w.count + 1 } in
    (verdict counted.count limit, put_window counted pruned)

-- `Allow` with the error of `ctx.Err()`.
unfoldable memory_store_allow :
    Option Error
    → (key : Bytes) (limit window now : ℕ) → List MemoryWindow
    → Result Error Verdict × List MemoryWindow
unfolding memory_allow
memory_store_allow (some e) key limit window now windows = (err e, windows)
memory_store_allow none key limit window now windows =
    let (v, windows') = memory_allow key limit window now windows in (ok v, windows')

abbrev incr_expire_script : Bytes
incr_expire_script =
    lit
      "\nlocal n = redis.call(\"INCR\", KEYS[1])\nif n == 1 then\n  redis.call(\"PEXPIRE\", KEYS[1], ARGV[1])\nend\nreturn n\n"

abbrev rate_limit_key : Bytes → Bytes
rate_limit_key client = lit "v1:ratelimit:" ++ client

abbrev milliseconds : ℕ → ℕ
milliseconds window = let ms = window / 1000000 in if ltb ms 1 then 1 else ms

abbrev redis_verdict : ℕ → ℤ → Verdict
redis_verdict limit (pos n) = verdict n limit
redis_verdict limit (negsuc n) = record { allowed = true; remaining = limit + n + 1 }

unfoldable pub redis_allow :
    {W : Type 0} → Cache W → (key : Bytes) (limit window : ℕ) → Io W Error Verdict
redis_allow c key limit window = do
  n ← map_err cause (c.eval incr_expire_script (rate_limit_key key) (milliseconds window))
  pure (redis_verdict limit n)

-- `RateLimitStore`.
abbrev pub RateLimitStore : Type 0 → Type 0
RateLimitStore W = (key : Bytes) (limit window : ℕ) → Io W Error Verdict

unfoldable client_rate_limit_key : Context → Bytes
unfolding trim_space
client_rate_limit_key c =
    let ip = trim_space c.request.client_ip in if is_empty ip then lit "unknown" else ip

abbrev pub or_default : ℕ → ℕ → ℕ
or_default n default = if n == 0 then default else n

abbrev retry_after : ℕ → ℕ
retry_after window = let s = window / second in if ltb s 1 then 1 else s

module _ {W : Type 0} (store : RateLimitStore W) (cfg : RateLimitConfig) where
  limited : Context → Result Error Verdict → Step
  limited c (err e) = abort (write_error c 503 (lit "rate limit unavailable"))
  limited c (ok v) =
      let requests = or_default cfg.requests default_requests in
      let c' =
        set_header (lit "X-RateLimit-Remaining") (format_uint v.remaining)
          (set_header (lit "X-RateLimit-Limit") (format_uint requests) c) in
      if v.allowed
      then next c'
      else abort (
          write_error
            (set_header (lit "Retry-After")
              (format_uint (retry_after (or_default cfg.window default_window))) c')
            429 (lit "rate limit exceeded"))

  unfoldable limit_client : Middleware W
  unfolding limited client_rate_limit_key
  limit_client c w =
      let r =
        store (client_rate_limit_key c) (or_default cfg.requests default_requests)
          (or_default cfg.window default_window) w in
      (limited c r.0, r.1)

module _ {W : Type 0} (cfg : RateLimitConfig) where
  -- A store of `none` is the nil store.
  unfoldable client_rate_limiter : Option (RateLimitStore W) → Middleware W
  unfolding limit_client
  client_rate_limiter none c w = (next c, w)
  client_rate_limiter (some store) c w =
      let r = limit_client store cfg c w in if cfg.enabled then r else (next c, w)

  abbrev enabled_store : Backend → RateLimitStore W → Option (Cache W) → RateLimitStore W
  enabled_store memory new_memory_store redis_client = new_memory_store
  enabled_store redis new_memory_store none = new_memory_store
  enabled_store redis new_memory_store (some c) = redis_allow c

  -- `rateLimitStoreFor`, with the new memory store as an argument.
  unfoldable rate_limit_store_for :
      (new_memory_store : RateLimitStore W) → Option (Cache W) → Option (RateLimitStore W)
  rate_limit_store_for new_memory_store redis_client =
      if cfg.enabled then some (enabled_store cfg.backend new_memory_store redis_client) else none

  unfoldable pub rate_limiter_from_env :
      (new_memory_store : RateLimitStore W) → Option (Cache W) → Middleware W
  unfolding client_rate_limiter rate_limit_store_for
  rate_limiter_from_env new_memory_store redis_client =
      client_rate_limiter (rate_limit_store_for new_memory_store redis_client)
