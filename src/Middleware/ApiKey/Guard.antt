-- ===== src/Middleware/ApiKey/Guard.antt =====
-- pkg/middleware/api_key.go: the requests that `APIKeyAuth` lets through.
use golang_rest_api_template.Base.{
  ℕ, ◌<◌, ◌≡◌, refl, inl, inr, false, arith, ltb, Bool-cases, length, Bytes, lit,
}
use golang_rest_api_template.Middleware.ApiKey.Exact.{constant_time_api_key_equal_iff}
use golang_rest_api_template.Http.Guard.{IsGuard, next-injective}
use golang_rest_api_template.Middleware.ApiKey.{
  api_key_auth, min_api_secret_key_bytes, constant_time_api_key_equal,
}
use golang_rest_api_template.Platform.{Variable}
use golang_rest_api_template.Http.{Context, next}

module _ {W : Type 0} (secret : Variable W Bytes) where
  pub api_key_auth-IsGuard : IsGuard (api_key_auth secret)
  unfolding api_key_auth
  api_key_auth-IsGuard c w = ground arith

  long_secret : (n : ℕ) → ltb n min_api_secret_key_bytes ≡ false → 0 < n
  long_secret n h = ground arith

  pub api_key_auth-passes :
      (c c' : Context) (w : W)
      → length (c.request.header (lit "X-API-Key")) < 18446744073709551616
      → length (secret.get w) < 18446744073709551616
      → (api_key_auth secret c w).0 ≡ next c'
      → (c.request.header (lit "X-API-Key") ≡ secret.get w)
        × ((c ≡ c') × ((api_key_auth secret c w).1 ≡ w))
  unfolding api_key_auth
  api_key_auth-passes c c' w short_key short_secret h =
      elim (Bool-cases (ltb (length (secret.get w)) min_api_secret_key_bytes)) [
        | inl short ↦ absurd (cc (rw short at h))
        | inr set ↦
            elim (Bool-cases
              (constant_time_api_key_equal (c.request.header (lit "X-API-Key")) (secret.get w))) [
                | inr other ↦ absurd (cc (rw (set, other) at h))
                | inl same ↦ (
                  (constant_time_api_key_equal_iff _ _ (long_secret (length (secret.get w)) set)
                        short_key short_secret).0
                      same,
                  (next-injective (rw (set, same) at h), rw (set, same) refl),
                )
              ]
      ]
