-- ===== src/Middleware/RateLimit/Refusal.antt =====
-- pkg/middleware/rate_limit.go: how the limiter ends a request, and how it lets one go on.
use golang_rest_api_template.Base.{Bytes, ◌≡◌, ◌≤◌, inl, inr, none, some, Option, Bool-cases, arith}
use golang_rest_api_template.Result.{Result, ok, err}
use golang_rest_api_template.Errors.{Error}
use golang_rest_api_template.Cache.{Cache}
use golang_rest_api_template.Http.{Context, Response}
use golang_rest_api_template.Http.Onward.{Onward, IsOnward, either-Onward}
use golang_rest_api_template.Middleware.RateLimit.{
  RateLimitStore, RateLimitConfig, Verdict, limited, limit_client, client_rate_limiter,
  rate_limiter_from_env, rate_limit_store_for,
}

module _ {W : Type 0} (Ending : Response → Type 0) (h : Bytes → Bytes)
    (refuses : (r : Response) → 400 ≤ r.status → Ending r) (cfg : RateLimitConfig) where
  limited-Onward :
      (store : RateLimitStore W) (c : Context) (r : Result Error Verdict)
      → c.request.header ≡ h
      → Onward Ending h (limited store cfg c r)
  unfolding limited
  limited-Onward store c (err e) same = refuses _ (omega arith)
  limited-Onward store c (ok v) same = elim (Bool-cases v.allowed) [
    | inl e ↦ rw e same
    | inr e ↦ rw e (refuses _ (omega arith))
  ]

  client_rate_limiter-IsOnward :
      (store : Option (RateLimitStore W)) → IsOnward Ending h (client_rate_limiter cfg store)
  unfolding client_rate_limiter limit_client
  client_rate_limiter-IsOnward none c w same = same
  client_rate_limiter-IsOnward (some store) c w same =
      either-Onward Ending h cfg.enabled _ _ (limited-Onward store c _ same) same

  pub rate_limiter_from_env-IsOnward :
      (new_memory_store : RateLimitStore W) (redis : Option (Cache W))
      → IsOnward Ending h (rate_limiter_from_env cfg new_memory_store redis)
  unfolding rate_limiter_from_env
  rate_limiter_from_env-IsOnward new_memory_store redis =
      client_rate_limiter-IsOnward (rate_limit_store_for cfg new_memory_store redis)
