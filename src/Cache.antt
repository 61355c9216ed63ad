-- ===== src/Cache.antt =====
-- pkg/cache/cache.go: the `Cache` interface. go-redis stands behind it, as a parameter.
pub mod Options
use golang_rest_api_template.Base.{ℕ, Bytes}
use golang_rest_api_template.Base.Integers.{ℤ}
use golang_rest_api_template.Result.{Io}
use golang_rest_api_template.Errors.{Cause}

-- `get` of a missing key fails with `redis.Nil`. `eval` is given the script, one key and one
-- number, and returns the script's number.
pub record Cache (W : Type 0) : Type 0 where
  pub get : (key : Bytes) → Io W Cause Bytes
  pub set : (key value : Bytes) (expiration : ℕ) → Io W Cause (Unit {0})
  pub incr : (key : Bytes) → Io W Cause ℤ
  pub eval : (script key : Bytes) (arg : ℕ) → Io W Cause ℤ
