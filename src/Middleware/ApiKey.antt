-- ===== src/Middleware/ApiKey.antt =====
-- pkg/middleware/api_key.go.
pub mod Exact
pub mod Guard
use golang_rest_api_template.Base.{
  ℕ, zero, suc, ◌/◌, ◌%◌, Bool, false, [], ◌∷◌, ◌++◌, ltb, ◌==◌, if◌then◌else◌, length, Bytes, lit,
  ◌=s◌,
}
use golang_rest_api_template.Result.{ok, err, Io}
use golang_rest_api_template.Errors.{Error, message}
use golang_rest_api_template.Platform.{Variable}
use golang_rest_api_template.Http.{abort, next, Middleware, write_error}

abbrev pub min_api_secret_key_bytes : ℕ
min_api_secret_key_bytes = 32

-- `copy(make([]byte, n), p)`: `n` bytes, those of `p` first, then zeros.
unfoldable padded : ℕ → Bytes → Bytes
padded zero p = []
padded (suc n) [] = 0 ∷ padded n []
padded (suc n) (b ∷ p) = b ∷ padded n p

-- `binary.BigEndian.PutUint64`.
unfoldable big_endian_64 : ℕ → Bytes
big_endian_64 n =
    n / 72057594037927936 % 256
    ∷ n / 281474976710656 % 256
    ∷ n / 1099511627776 % 256
    ∷ n / 4294967296 % 256
    ∷ n / 16777216 % 256
    ∷ n / 65536 % 256
    ∷ n / 256 % 256
    ∷ n % 256
    ∷ []

-- `subtle.ConstantTimeCompare` is the equality of the two slices.
unfoldable pub constant_time_api_key_equal : (provided secret : Bytes) → Bool
unfolding padded big_endian_64
constant_time_api_key_equal provided secret =
    let n = length secret in
    if n == 0
    then false
    else (padded n provided ++ big_endian_64 (length provided)) =s (secret ++ big_endian_64 n)

module _ {W : Type 0} (api_secret : Variable W Bytes) where
  unfoldable pub set_api_secret_key : Bytes → Io W Error (Unit {0})
  set_api_secret_key secret w =
      if ltb (length secret) min_api_secret_key_bytes
      then (err (message (lit "API secret key below minimum length")), w)
      else (ok tt, api_secret.put secret w)

  unfoldable pub api_key_auth : Middleware W
  api_key_auth c w =
      let secret = api_secret.get w in
      if ltb (length secret) min_api_secret_key_bytes
      then (abort (write_error c 503 (lit "API secret key not configured")), w)
      else if constant_time_api_key_equal (c.request.header (lit "X-API-Key")) secret
      then (next c, w)
      else (abort (write_error c 401 (lit "Unauthorized")), w)
