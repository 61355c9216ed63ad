-- ===== src/Middleware/JwtAuth/Guard.antt =====
-- pkg/middleware/jwt_auth.go: the statuses with which `JWTAuth` ends a request.
use golang_rest_api_template.Auth.Keys.{min_jwt_secret_key_bytes, jwt_key_func}
use golang_rest_api_template.Base.{
  inl, inr, Bool, true, false, not, ◌||◌, Option, none, some, arith, ltb, ◌==◌, Bool-cases,
  Option-cases, length, Bytes, lit, is_empty, cut_prefix,
}
use golang_rest_api_template.Auth.Roles.{valid_role}
use golang_rest_api_template.Http.Guard.{Refuses, IsGuard, either}
use golang_rest_api_template.Errors.{Error, Cause}
use golang_rest_api_template.Auth.Denylist.{TokenDenylist}
use golang_rest_api_template.Platform.{Platform, Claims}
use golang_rest_api_template.Http.{Context, Step, next}
use golang_rest_api_template.Middleware.JwtAuth.{
  jwt_auth, check_user, check_jti, check_claims, parsed, with_token, unless_revoked, with_claims,
}
use golang_rest_api_template.Result.{Result, ok, err}

module _ {W : Type 0} (p : Platform W) (denylist : TokenDenylist W) where
  unless_revoked-Refuses :
      (c : Context) (r : Result Error Bool × W) (k : W → Step × W)
      → ((v : W) → Refuses (k v).0)
      → Refuses (unless_revoked p denylist c r k).0
  unless_revoked-Refuses c (err e, w) k h = omega arith
  unless_revoked-Refuses c (ok true, w) k h = omega arith
  unless_revoked-Refuses c (ok false, w) k h = h w

  check_user-Refuses :
      (c : Context) (claims : Claims) (w : W) → Refuses (check_user p denylist c claims w).0
  unfolding check_user
  check_user-Refuses c claims w = elim (Option-cases claims.issued_at) [
    | inl absent ↦ rw absent tt
    | inr (t, present) ↦ rw present (
        unless_revoked-Refuses c (denylist.is_user_revoked claims.user_id (some t) w)
          (λ w'. (next (with_claims c claims), w')) λ v. tt)
  ]

  parsed-Refuses :
      (c : Context) (r : Result Cause (Claims × Bool) × W) → Refuses (parsed p denylist c r).0
  unfolding parsed check_claims check_jti
  parsed-Refuses c (err e, w) = omega arith
  parsed-Refuses c (ok (claims, valid), w) =
      either (not valid || (claims.user_id == 0 || not (valid_role claims.role))) _ _ (omega arith)
        (either (is_empty claims.id) _ _ (check_user-Refuses c claims w) (
          unless_revoked-Refuses c (denylist.is_denied claims.id w) (check_user p denylist c claims)
            (check_user-Refuses c claims)))

  with_token-Refuses :
      (c : Context) (t : Option Bytes) (w : W) → Refuses (with_token p denylist c t w).0
  unfolding with_token
  with_token-Refuses c none w = omega arith
  with_token-Refuses c (some token) w =
      elim (Bool-cases (ltb (length (p.jwt_signing_key.get w)) min_jwt_secret_key_bytes)) [
        | inl short ↦ rw short (omega arith)
        | inr set ↦
            rw set (parsed-Refuses c (p.jwt_parse (jwt_key_func (p.jwt_signing_key.get w)) token w))
      ]

  pub jwt_auth-IsGuard : IsGuard (jwt_auth p denylist)
  unfolding jwt_auth
  jwt_auth-IsGuard c w =
      let header = c.request.header (lit "Authorization") in
      elim (Bool-cases (is_empty header)) [
        | inl missing ↦ rw missing (omega arith)
        | inr present ↦ rw present (with_token-Refuses c (cut_prefix (lit "Bearer ") header) w)
      ]
