-- ===== src/Platform.antt =====
-- What the code takes from outside the repository, as a parameter: the clock, the random source,
-- the environment, the package variables' storage, bcrypt, SHA-256, base64 and the JWT library.
use golang_rest_api_template.Base.{ℕ, Bytes, Bool, Option}
use golang_rest_api_template.Result.{Result, Io}
use golang_rest_api_template.Errors.{Cause}

-- A `time.Duration`, or the error of `time.ParseDuration`, is read as its nanoseconds when it is
-- positive.
pub data Duration : Type 0 where
  malformed : Duration
  not_positive : Duration
  positive : ℕ → Duration

-- `auth.Claims`; an absent `jti` is the empty string, an absent date is `none`.
pub record Claims : Type 0 where
  pub username : Bytes
  pub user_id : ℕ
  pub role : Bytes
  pub expires_at : Option ℕ
  pub issued_at : Option ℕ
  pub id : Bytes

-- The signing method that a token's header names.
pub data SigningMethod : Type 0 where
  hs256 : SigningMethod
  other_method : Bytes → SigningMethod

-- A package variable.
pub record Variable (W A : Type 0) : Type 0 where
  pub get : W → A
  pub put : A → W → W

pub record Platform (W : Type 0) : Type 0 where
  pub time_now : W → ℕ × W
  pub rand_read : (n : ℕ) → Io W Cause Bytes
  pub getenv : Bytes → Bytes
  pub parse_duration : Bytes → Duration
  pub sha256 : Bytes → Bytes
  pub base64_raw_url : Bytes → Bytes
  pub bcrypt_generate : (password : Bytes) (cost : ℕ) → Io W Cause Bytes
  -- Whether `bcrypt.CompareHashAndPassword` returns nil; the time it takes is not part of it.
  pub bcrypt_compare : (hash password : Bytes) → Bool
  pub jwt_signing_key : Variable W Bytes
  pub jwt_sign : (key : Bytes) → Claims → Result Cause Bytes
  -- `jwt.ParseWithClaims`, given the key function; the flag is `token.Valid`.
  pub jwt_parse : (SigningMethod → Result Cause Bytes) → Bytes → Io W Cause (Claims × Bool)
