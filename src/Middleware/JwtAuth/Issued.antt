-- ===== src/Middleware/JwtAuth/Issued.antt =====
-- pkg/auth/auth.go and pkg/middleware/jwt_auth.go: a token from `GenerateToken` before `JWTAuth`.
use golang_rest_api_template.Base.{
  ℕ, ◌≤◌, ◌<◌, ◌≡◌, some, All, true, false, ltb, ◌==◌, length, Bytes,
}
use golang_rest_api_template.Auth.Roles.{valid_role}
use golang_rest_api_template.Platform.{Platform, Claims}
use golang_rest_api_template.Middleware.JwtAuth.{jwt_auth, with_claims}
use golang_rest_api_template.Http.{Context, next}
use golang_rest_api_template.Result.{ok}
use golang_rest_api_template.Auth.Keys.{
  jwt_key_func, claims_at, numeric_date, min_jwt_secret_key_bytes,
}
use golang_rest_api_template.Auth.Denylist.{noop_denylist}

-- A text in ASCII, which JSON gives back as it is.
abbrev pub IsText : Bytes → Type 0
IsText s = All (λ b. b < 128) s

module _ {W : Type 0} (p : Platform W) where
  abbrev key_at : W → Bytes
  key_at w = p.jwt_signing_key.get w

  -- The random source and the clock leave the signing key alone.
  pub record KeyFrame : Type 0 where
    pub rand_keeps_key : (n : ℕ) (w : W) → key_at (p.rand_read n w).1 ≡ key_at w
    pub time_keeps_key : (w : W) → key_at (p.time_now w).1 ≡ key_at w

  -- The JWT library accepts, in the world `w`, what it has signed: claims with texts in ASCII and
  -- dates in whole seconds, issued by then and not expired.
  abbrev pub Accepts : W → Type 0
  Accepts w =
      (key : Bytes) (claims : Claims) (token : Bytes) (issued expires : ℕ)
      → p.jwt_sign key claims ≡ ok token
      → IsText claims.username × (IsText claims.role × IsText claims.id)
      → claims.issued_at ≡ some (numeric_date issued)
      → claims.expires_at ≡ some (numeric_date expires)
      → numeric_date issued ≤ (p.time_now w).0
      → (p.time_now w).0 < numeric_date expires
      → (p.jwt_parse (jwt_key_func key) token w).0 ≡ ok (claims, true)

  -- The clock of `GenerateToken`.
  abbrev pub issue_time : W → ℕ
  issue_time w = (p.time_now (p.rand_read 32 w).1).0

  -- The claims that a token was signed with, and its identity.
  record Signed (username : Bytes) (user_id : ℕ) (role token : Bytes) (w : W) : Type 0 where
    jti : Bytes
    named : Bytes
    from_base64 : jti ≡ p.base64_raw_url named
    user : (user_id == 0) ≡ false
    known : valid_role role ≡ true
    configured : ltb (length (key_at w)) min_jwt_secret_key_bytes ≡ false
    signed : p.jwt_sign (key_at w) (claims_at p username user_id role jti (issue_time w)) ≡ ok token

  -- What a handler behind `JWTAuth` sees of the user.
  pub record Recognised (username : Bytes) (user_id : ℕ) (role : Bytes) (c : Context) (w : W)
      : Type 0 where
    pub claims : Claims
    pub passes : (jwt_auth p noop_denylist c w).0 ≡ next (with_claims c claims)
    pub same_name : claims.username ≡ username
    pub same_user : claims.user_id ≡ user_id
    pub same_role : claims.role ≡ role
