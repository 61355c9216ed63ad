-- ===== src/Middleware/JwtAuth.antt =====
-- pkg/middleware/jwt_auth.go.
pub mod Verified
pub mod Guard
pub mod Issued
use golang_rest_api_template.Base.{
  Bool, true, false, not, ◌||◌, Option, none, some, ltb, ◌==◌, if◌then◌else◌, length, Bytes, lit,
  is_empty, cut_prefix,
}
use golang_rest_api_template.Result.{Result, ok, err}
use golang_rest_api_template.Errors.{Error, Cause}
use golang_rest_api_template.Platform.{Platform, Claims}
use golang_rest_api_template.Auth.Roles.{valid_role}
use golang_rest_api_template.Auth.Keys.{jwt_key_func, min_jwt_secret_key_bytes}
use golang_rest_api_template.Auth.Denylist.{TokenDenylist}
use golang_rest_api_template.Http.{Context, Step, abort, next, Middleware, write_error}

-- `c.Set` of the claims; the expiry is set where the token has one.
abbrev pub with_claims : Context → Claims → Context
with_claims c claims = record c {
  username = some claims.username;
  user_id = some claims.user_id;
  role = some claims.role;
  jti = some claims.id;
  access_exp = elim claims.expires_at [ none ↦ c.access_exp | some t ↦ some t ];
}

module _ {W : Type 0} (p : Platform W) (denylist : TokenDenylist W) where
  abbrev unauthorized : Context → Bytes → Step
  unauthorized c message = abort (write_error c 401 message)

  -- The answer of a denylist query, and what follows when it is no.
  abbrev unless_revoked : Context → Result Error Bool × W → (W → Step × W) → Step × W
  unless_revoked c (err e, w) k = (unauthorized c (lit "Invalid token"), w)
  unless_revoked c (ok true, w) k = (unauthorized c (lit "Token revoked"), w)
  unless_revoked c (ok false, w) k = k w

  unfoldable check_user : Context → Claims → W → Step × W
  check_user c claims w = elim claims.issued_at [
    | none ↦ (next (with_claims c claims), w)
    | some iat ↦
        unless_revoked c (denylist.is_user_revoked claims.user_id (some iat) w)
          (λ w'. (next (with_claims c claims), w'))
  ]

  unfoldable check_jti : Context → Claims → W → Step × W
  unfolding check_user
  check_jti c claims w =
      let checked = unless_revoked c (denylist.is_denied claims.id w) (check_user c claims) in
      if is_empty claims.id then check_user c claims w else checked

  unfoldable check_claims : Context → Claims → Bool → W → Step × W
  unfolding check_jti
  check_claims c claims valid w =
      if not valid || (claims.user_id == 0 || not (valid_role claims.role))
      then (unauthorized c (lit "Invalid token"), w)
      else check_jti c claims w

  unfoldable parsed : Context → Result Cause (Claims × Bool) × W → Step × W
  unfolding check_claims
  parsed c (err e, w) = (unauthorized c (lit "Invalid token"), w)
  parsed c (ok (claims, valid), w) = check_claims c claims valid w

  unfoldable with_token : Context → Option Bytes → W → Step × W
  unfolding parsed
  with_token c none w = (unauthorized c (lit "Invalid Authorization Header"), w)
  with_token c (some token) w =
      let key = p.jwt_signing_key.get w in
      if ltb (length key) min_jwt_secret_key_bytes
      then (abort (write_error c 503 (lit "JWT signing key not configured")), w)
      else parsed c (p.jwt_parse (jwt_key_func key) token w)

  unfoldable pub jwt_auth : Middleware W
  unfolding with_token
  jwt_auth c w =
      let header = c.request.header (lit "Authorization") in
      if is_empty header
      then (unauthorized c (lit "Missing Authorization Header"), w)
      else with_token c (cut_prefix (lit "Bearer ") header) w
