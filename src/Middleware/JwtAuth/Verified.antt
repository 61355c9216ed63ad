-- ===== src/Middleware/JwtAuth/Verified.antt =====
-- pkg/middleware/jwt_auth.go: the requests that `JWTAuth` lets through.
use golang_rest_api_template.Http.Guard.{next-injective}
use golang_rest_api_template.Base.{
  ℕ, ◌≡◌, refl, sym, ◌∙◌, subst, inl, inr, Bool, true, false, some, ltb, ◌==◌, if◌then◌else◌,
  Bool-cases, Option-cases, length, Bytes, lit, is_empty, cut_prefix,
}
use golang_rest_api_template.Auth.Roles.{valid_role}
use golang_rest_api_template.Errors.{Error, Cause}
use golang_rest_api_template.Auth.Keys.{min_jwt_secret_key_bytes, jwt_key_func}
use golang_rest_api_template.Result.{Result, ok, Result-cases}
use mathlib.Core.Option.{some-injective}
use golang_rest_api_template.Http.{Context, Step, next}
use golang_rest_api_template.Auth.Denylist.{TokenDenylist}
use golang_rest_api_template.Platform.{Platform, Claims}
use golang_rest_api_template.Http.{next, Context, Step}
use golang_rest_api_template.Result.{Result, ok, err}
use golang_rest_api_template.Middleware.JwtAuth.{
  jwt_auth, with_claims, check_user, check_jti, check_claims, parsed, with_token, unless_revoked,
}

module _ {W : Type 0} (p : Platform W) (denylist : TokenDenylist W) where
  abbrev parse_at : Bytes → W → Result Cause (Claims × Bool) × W
  parse_at token w = p.jwt_parse (jwt_key_func (p.jwt_signing_key.get w)) token w

  -- The world in which the cutoff of the user is asked for, after the query of the token's id.
  abbrev after_jti : Claims → W → W
  after_jti claims w = if is_empty claims.id then w else (denylist.is_denied claims.id w).1

  -- No entry of the denylist stands against the claims, in the world `w` that the parse has left.
  pub record Unrevoked (claims : Claims) (w : W) : Type 0 where
    pub id_free : is_empty claims.id ≡ false → (denylist.is_denied claims.id w).0 ≡ ok false
    pub user_free :
        (iat : ℕ)
        → claims.issued_at ≡ some iat
        → (denylist.is_user_revoked claims.user_id (some iat) (after_jti claims w)).0 ≡ ok false

  -- The claims of a bearer token that the JWT library accepts under the key of the service, of a
  -- user that is not 0 and of a known role, which the denylist does not name.
  pub record Verified (c : Context) (w : W) : Type 0 where
    pub token : Bytes
    pub claims : Claims
    pub bearer : cut_prefix (lit "Bearer ") (c.request.header (lit "Authorization")) ≡ some token
    pub configured : ltb (length (p.jwt_signing_key.get w)) min_jwt_secret_key_bytes ≡ false
    pub signed : (parse_at token w).0 ≡ ok (claims, true)
    pub user : (claims.user_id == 0) ≡ false
    pub known_role : valid_role claims.role ≡ true
    pub unrevoked : Unrevoked claims (parse_at token w).1

  abbrev Passes : Step × W → Context → Type 0
  Passes r c' = r.0 ≡ next c'

  unless_revoked-Passes :
      (c c' : Context) (r : Result Error Bool × W) (k : W → Step × W)
      → Passes (unless_revoked p denylist c r k) c'
      → (r.0 ≡ ok false) × Passes (k r.1) c'
  unless_revoked-Passes c c' (err e, w) k h = absurd (cc h)
  unless_revoked-Passes c c' (ok true, w) k h = absurd (cc h)
  unless_revoked-Passes c c' (ok false, w) k h = (refl, h)

  check_user-Passes :
      (c c' : Context) (claims : Claims) (w : W)
      → Passes (check_user p denylist c claims w) c'
      → (with_claims c claims ≡ c')
        × ((iat : ℕ)
            → claims.issued_at ≡ some iat
            → (denylist.is_user_revoked claims.user_id (some iat) w).0 ≡ ok false)
  unfolding check_user
  check_user-Passes c c' claims w h = elim (Option-cases claims.issued_at) [
    | inl absent ↦ (next-injective (rw absent at h), λ iat present. absurd (cc (absent, present)))
    | inr (t, present) ↦
        let (free, passed) =
          unless_revoked-Passes c c' (denylist.is_user_revoked claims.user_id (some t) w)
            (λ w'. (next (with_claims c claims), w')) (rw present at h) in
        (
          next-injective passed,
          λ iat there.
              subst (λ i. (denylist.is_user_revoked claims.user_id (some i) w).0 ≡ ok false)
                (some-injective t iat (sym present ∙ there)) free,
        )
  ]

  check_jti-Passes :
      (c c' : Context) (claims : Claims) (w : W)
      → Passes (check_jti p denylist c claims w) c'
      → (with_claims c claims ≡ c') × Unrevoked claims w
  unfolding check_jti
  check_jti-Passes c c' claims w h = elim (Bool-cases (is_empty claims.id)) [
    | inl without ↦
        let (same, free) = check_user-Passes c c' claims w (rw without at h) in
        (same, record { id_free = λ e. absurd (cc (without, e)); user_free = rw without free })
    | inr with_id ↦
        let (id_free, passed) =
          unless_revoked-Passes c c' (denylist.is_denied claims.id w)
            (check_user p denylist c claims) (rw with_id at h) in
        let (same, free) = check_user-Passes c c' claims _ passed in
        (same, record { id_free = λ e. id_free; user_free = rw with_id free })
  ]

  check_claims-Passes :
      (c c' : Context) (claims : Claims) (valid : Bool) (w : W)
      → Passes (check_claims p denylist c claims valid w) c'
      → (valid ≡ true)
        × (((claims.user_id == 0) ≡ false)
            × ((valid_role claims.role ≡ true) × Passes (check_jti p denylist c claims w) c'))
  unfolding check_claims
  check_claims-Passes c c' claims false w h = absurd (cc h)
  check_claims-Passes c c' claims true w h = elim (Bool-cases (claims.user_id == 0)) [
    | inl zero_user ↦ absurd (cc (rw zero_user at h))
    | inr user ↦ elim (Bool-cases (valid_role claims.role)) [
      | inl known ↦ (refl, (user, (known, rw (user, known) at h)))
      | inr unknown ↦ absurd (cc (rw (user, unknown) at h))
    ]
  ]

  with_token-Verified :
      (c c' : Context) (token : Bytes) (w : W)
      → cut_prefix (lit "Bearer ") (c.request.header (lit "Authorization")) ≡ some token
      → Passes (with_token p denylist c (some token) w) c'
      → (v : Verified c w) × (with_claims c v.claims ≡ c')
  unfolding with_token parsed
  with_token-Verified c c' token w bearer h =
      elim (Bool-cases (ltb (length (p.jwt_signing_key.get w)) min_jwt_secret_key_bytes)) [
        | inl short ↦ absurd (cc (rw short at h))
        | inr configured ↦ elim (Result-cases (parse_at token w).0) [
          | inr (e, refused) ↦ absurd (cc (rw (configured, refused) at h))
          | inl ((claims, valid), accepted) ↦
              let (is_valid, (user, (known, passed))) =
                check_claims-Passes c c' claims valid (parse_at token w).1
                  (rw (configured, accepted) at h) in
              let (same, unrevoked) = check_jti-Passes c c' claims _ passed in
              (
                record {
                  token = token;
                  claims = claims;
                  bearer = bearer;
                  configured = configured;
                  signed = rw is_valid at accepted;
                  user = user;
                  known_role = known;
                  unrevoked = unrevoked;
                },
                same,
              )
        ]
      ]

  pub jwt_auth-Verified :
      (c c' : Context) (w : W)
      → (jwt_auth p denylist c w).0 ≡ next c'
      → (v : Verified c w) × (with_claims c v.claims ≡ c')
  unfolding jwt_auth
  jwt_auth-Verified c c' w h =
      let header = c.request.header (lit "Authorization") in
      elim (Bool-cases (is_empty header)) [
        | inl missing ↦ absurd (cc (rw missing at h))
        | inr present ↦ elim (Option-cases (cut_prefix (lit "Bearer ") header)) [
          | inl no_token ↦ absurd (cc (rw (present, no_token, with_token) at h))
          | inr (token, bearer) ↦
              with_token-Verified c c' token w bearer (rw (present, bearer) at h)
        ]
      ]
