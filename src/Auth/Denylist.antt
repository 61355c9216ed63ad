-- ===== src/Auth/Denylist.antt =====
-- The `TokenDenylist` interface of pkg/auth/denylist.go, and its Redis and no-op implementations.
-- The Redis client is a parameter.
pub mod Cutoff
use golang_rest_api_template.Base.{
  ℕ, ◌-◌, ◌/◌, Bool, true, false, not, Option, none, some, [], ◌∷◌, ◌++◌, leb, ◌==◌, if◌then◌else◌,
  any, Bytes, lit, ◌=s◌, is_empty, trim_space, to_lower, format_uint,
}
use golang_rest_api_template.Base.Integers.{ℤ, pos, negsuc, atoi}
use golang_rest_api_template.Result.{Result, ok, err, Io, ◌>>=◌, pure, raise, map_err, attempt}
use golang_rest_api_template.Errors.{Error, Cause, cause, message}
use golang_rest_api_template.Platform.{Platform}
use golang_rest_api_template.Cache.{Cache}
use golang_rest_api_template.Auth.Tokens.{access_token_ttl, second}
use golang_rest_api_template.Auth.Keys.{clock}

pub record TokenDenylist (W : Type 0) : Type 0 where
  pub deny : (jti : Bytes) (until : ℕ) → Io W Error (Unit {0})
  pub is_denied : (jti : Bytes) → Io W Error Bool
  pub deny_user_before : (user_id : ℕ) (before : Option ℕ) → Io W Error (Unit {0})
  pub is_user_revoked : (user_id : ℕ) (iat : Option ℕ) → Io W Error Bool

abbrev pub denylist_key : Bytes → Bytes
denylist_key jti = lit "v1:token_denylist:jti:" ++ jti

abbrev pub user_revoke_before_key : ℕ → Bytes
user_revoke_before_key user_id =
    lit "v1:token_denylist:user:" ++ (format_uint user_id ++ lit ":revoke_before")

-- `Time.Unix`.
abbrev pub unix : ℕ → ℕ
unix t = t / second

-- `ts >= iat.Unix()` for the stored text; a text that is no number is no cutoff.
unfoldable pub covers : Option ℤ → ℕ → Bool
covers none iat = false
covers (some (negsuc n)) iat = false
covers (some (pos ts)) iat = leb (unix iat) ts

module _ {W : Type 0} (p : Platform W) (c : Cache W) where
  unfoldable pub deny : Bytes → ℕ → Io W Error (Unit {0})
  deny jti until = if is_empty jti then raise (message (lit "auth: empty jti")) else do
    now ← clock p
    if leb until now
        then pure tt
        else map_err cause (c.set (denylist_key jti) (lit "1") (until - now))

  -- Any error of the cache, a missing key too, means that the token is not denied.
  abbrev found : Result Cause Bytes → Bool
  found (ok s) = true
  found (err e) = false

  unfoldable pub is_denied : Bytes → Io W Error Bool
  is_denied jti =
      if is_empty jti then pure false else do r ← attempt (c.get (denylist_key jti)); pure (found r)

  unfoldable set_revoke_before : ℕ → ℕ → Io W Error (Unit {0})
  set_revoke_before user_id before =
      map_err cause
        (c.set (user_revoke_before_key user_id) (format_uint (unix before)) (access_token_ttl p))

  unfoldable pub deny_user_before : ℕ → Option ℕ → Io W Error (Unit {0})
  unfolding set_revoke_before
  deny_user_before user_id before =
      if user_id == 0 then raise (message (lit "auth: empty user id")) else elim before [
        | none ↦ raise (message (lit "auth: empty revoke_before"))
        | some t ↦ if access_token_ttl p == 0 then pure tt else set_revoke_before user_id t
      ]

  abbrev revoked : Result Cause Bytes → ℕ → Bool
  revoked (ok s) iat = covers (atoi s) iat
  revoked (err e) iat = false

  unfoldable check_user : ℕ → ℕ → Io W Error Bool
  check_user user_id iat = do
    r ← attempt (c.get (user_revoke_before_key user_id))
    pure (revoked r iat)

  unfoldable pub is_user_revoked : ℕ → Option ℕ → Io W Error Bool
  unfolding covers check_user
  is_user_revoked user_id none = pure false
  is_user_revoked user_id (some iat) = if user_id == 0 then pure false else check_user user_id iat

  abbrev pub redis_denylist : TokenDenylist W
  redis_denylist = record {
    deny = deny;
    is_denied = is_denied;
    deny_user_before = deny_user_before;
    is_user_revoked = is_user_revoked;
  }

abbrev pub noop_denylist : {W : Type 0} → TokenDenylist W
noop_denylist = record {
  deny = λ jti until. pure tt;
  is_denied = λ jti. pure false;
  deny_user_before = λ user_id before. pure tt;
  is_user_revoked = λ user_id iat. pure false;
}

-- A word that is not one of the four means yes.
unfoldable token_denylist_enabled : (Bytes → Bytes) → Bool
unfolding trim_space to_lower
token_denylist_enabled getenv =
    let s = to_lower (trim_space (getenv (lit "TOKEN_DENYLIST_ENABLED"))) in
    not (any (λ w. w =s s) (lit "0" ∷ lit "false" ∷ lit "no" ∷ lit "off" ∷ []))

-- `NewTokenDenylistFromEnv`, given whether it is enabled; a cache of `none` is nil.
abbrev denylist_over : {W : Type 0} → Platform W → Bool → Option (Cache W) → TokenDenylist W
denylist_over p enabled none = noop_denylist
denylist_over p true (some c) = redis_denylist p c
denylist_over p false (some c) = noop_denylist

unfoldable new_token_denylist_from_env :
    {W : Type 0} → Platform W → Option (Cache W) → TokenDenylist W
unfolding token_denylist_enabled
new_token_denylist_from_env p c = denylist_over p (token_denylist_enabled p.getenv) c
