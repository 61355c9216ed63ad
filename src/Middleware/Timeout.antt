-- ===== src/Middleware/Timeout.antt =====
-- pkg/middleware/request_timeout.go: the timeout from the environment, and the middleware over
-- `context.WithTimeout`, which puts the deadline on the context of the request.
use golang_rest_api_template.Base.{
  ℕ, ◌*◌, ◌==◌, Bool, [], ◌∷◌, if◌then◌else◌, any, Bytes, lit, ◌=s◌, is_empty, trim_space, to_lower,
}
use golang_rest_api_template.Auth.Tokens.{second}
use golang_rest_api_template.Http.{Middleware, next}
use golang_rest_api_template.Platform.{Duration, positive, malformed, not_positive}

abbrev default_request_context_timeout : ℕ
default_request_context_timeout = 60 * second

abbrev timeout_of : Duration → ℕ
timeout_of (positive d) = d
timeout_of malformed = default_request_context_timeout
timeout_of not_positive = default_request_context_timeout

abbrev says_never : Bytes → Bool
says_never s = any (λ w. w =s s) (lit "0" ∷ lit "off" ∷ lit "none" ∷ [])

-- 0 switches the timeout off.
unfoldable pub request_context_timeout_duration_from_env : (Bytes → Bytes) → (Bytes → Duration) → ℕ
unfolding trim_space to_lower
request_context_timeout_duration_from_env getenv parse_duration =
    let s = trim_space (getenv (lit "REQUEST_CONTEXT_TIMEOUT")) in
    if is_empty s
    then default_request_context_timeout
    else if says_never (to_lower s)
    then 0
    else timeout_of (parse_duration s)

-- 0 stands for every duration that is not positive.
unfoldable pub request_context_timeout : {W : Type 0} → (ℕ → Middleware W) → ℕ → Middleware W
request_context_timeout with_timeout d c w = if d == 0 then (next c, w) else with_timeout d c w

unfoldable pub request_context_timeout_from_env :
    {W : Type 0} → (ℕ → Middleware W) → (Bytes → Bytes) → (Bytes → Duration) → Middleware W
unfolding request_context_timeout request_context_timeout_duration_from_env
request_context_timeout_from_env with_timeout getenv parse_duration =
    request_context_timeout with_timeout
      (request_context_timeout_duration_from_env getenv parse_duration)
