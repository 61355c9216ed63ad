-- ===== src/Auth/Keys.antt =====
-- pkg/auth/auth.go: the JWT signing key and the tokens that it signs.
use golang_rest_api_template.Base.{
  ℕ, ◌+◌, ◌*◌, ◌/◌, not, some, [], ltb, ◌==◌, if◌then◌else◌, length, Bytes, lit,
}
use golang_rest_api_template.Result.{Result, ok, err, Io, ◌>>=◌, raise, map_err, pure}
use golang_rest_api_template.Errors.{Error, Cause, other, cause, message}
use golang_rest_api_template.Platform.{Platform, Claims, SigningMethod, hs256, other_method}
use golang_rest_api_template.Auth.Roles.{valid_role}
use golang_rest_api_template.Auth.Tokens.{second, access_token_ttl, new_opaque_token}

abbrev pub min_jwt_secret_key_bytes : ℕ
min_jwt_secret_key_bytes = 32

-- `JWTKeyFunc`: any method but HMAC-SHA256 is refused.
unfoldable pub jwt_key_func : Bytes → SigningMethod → Result Cause Bytes
jwt_key_func key hs256 = ok key
jwt_key_func key (other_method alg) = err (other (lit "unexpected signing method"))

-- `jwt.NewNumericDate` cuts a time to whole seconds.
abbrev pub numeric_date : ℕ → ℕ
numeric_date t = t / second * second

module _ {W : Type 0} (p : Platform W) where
  open p use {jwt_signing_key, jwt_sign, time_now}

  unfoldable pub set_jwt_signing_key : Bytes → Io W Error (Unit {0})
  set_jwt_signing_key secret w =
      if ltb (length secret) min_jwt_secret_key_bytes
      then (err (message (lit "jwt signing key below minimum length")), w)
      else (ok tt, jwt_signing_key.put secret w)

  unfoldable jwt_signing_key_copy : W → Bytes
  jwt_signing_key_copy w = jwt_signing_key.get w

  unfoldable clear_jwt_signing_key : W → W
  clear_jwt_signing_key w = jwt_signing_key.put [] w

  abbrev pub clock : {E : Type 0} → Io W E ℕ
  clock w = (ok (time_now w).0, (time_now w).1)

  abbrev pub claims_at : Bytes → ℕ → Bytes → Bytes → ℕ → Claims
  claims_at username user_id role jti now = record {
    username = username;
    user_id = user_id;
    role = role;
    expires_at = some (numeric_date (now + access_token_ttl p));
    issued_at = some (numeric_date now);
    id = jti;
  }

  abbrev lift : {A : Type 0} → Result Cause A → Io W Error A
  lift r w = map_err cause (λ w. (r, w)) w

  unfoldable pub sign_claims : Bytes → ℕ → Bytes → Io W Error Bytes
  sign_claims username user_id role = do
    jti ← new_opaque_token p
    now ← clock
    λ w. lift (jwt_sign (jwt_signing_key.get w) (claims_at username user_id role jti now)) w

  unfoldable pub generate_token : Bytes → ℕ → Bytes → Io W Error Bytes
  unfolding sign_claims
  generate_token username user_id role w =
      if user_id == 0
      then raise (message (lit "auth.GenerateToken: user id must be non-zero")) w
      else if not (valid_role role)
      then raise (message (lit "auth.GenerateToken: invalid role")) w
      else if ltb (length (jwt_signing_key.get w)) min_jwt_secret_key_bytes
      then raise (message (lit "auth.GenerateToken: jwt signing key not configured")) w
      else sign_claims username user_id role w

-- A failure of the random source panics, which is the error here.
module _ {W : Type 0} (p : Platform W) (base64_std : Bytes → Bytes) where
  unfoldable generate_random_key : Io W Error Bytes
  generate_random_key = do key ← map_err cause (p.rand_read 32); pure (base64_std key)
