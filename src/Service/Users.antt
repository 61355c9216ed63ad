-- ===== src/Service/Users.antt =====
-- pkg/service/user_service.go: `UserService`. `refresh` may be nil, as in the source.
pub mod Frame
pub mod Lookups
pub mod Rotation
pub mod SingleUse
pub mod Reuse
pub mod Enrolled
pub mod Family
use golang_rest_api_template.Base.{
  ℕ, ◌+◌, ◌/◌, Bytes, ◌==◌, ltb, not, if◌then◌else◌, is_empty, length, Option, none, some,
}
use golang_rest_api_template.Result.{
  Result, ok, err, Io, ◌>>=◌, ◌>>◌, pure, raise, map_err, attempt,
}
use golang_rest_api_template.Errors.{
  Error, Cause, Sentinel, sentinel, wrap, cause, bcrypt_too_long, is, is_not_found, invalid_login,
  login_db, token_generate, register_conflict, password_too_long, register_hash, register_save,
  invalid_refresh, refresh_reuse, refresh_persist, logout_persist, refresh_already_consumed,
  username_conflict,
}
use golang_rest_api_template.Models.{User, RefreshToken}
use golang_rest_api_template.Platform.{Platform}
use golang_rest_api_template.Repository.Persistence.{UserPersistence, RefreshTokenPersistence}
use golang_rest_api_template.Repository.Tables.{is_null}
use golang_rest_api_template.Auth.Roles.{role_user, effective_role}
use golang_rest_api_template.Auth.Tokens.{
  second, access_token_ttl, refresh_token_ttl, new_opaque_token, new_family_id, hash_refresh_token,
}
use golang_rest_api_template.Auth.Keys.{clock, generate_token}
use golang_rest_api_template.Auth.Passwords.{hash_password}
use golang_rest_api_template.Auth.Denylist.{TokenDenylist}

pub record TokenPair : Type 0 where
  pub access_token : Bytes
  pub refresh_token : Bytes
  pub expires_in : ℕ

-- `if IsNotFound(err) { return missing }; return fmtError(failed, err)`.
abbrev pub lookup_error : Sentinel → Sentinel → Error → Error
lookup_error missing failed e = if is_not_found e then sentinel missing else wrap failed e

module _ {W : Type 0} (p : Platform W) (users : UserPersistence W)
    (refresh : Option (RefreshTokenPersistence W)) (denylist : TokenDenylist W) where
  abbrev pure_role : User → Io W Error Bytes
  pure_role u = map_err (wrap token_generate) (λ w. (effective_role u.role, w))

  abbrev pub pair_of : Bytes → Bytes → TokenPair
  pair_of access plain = record {
    access_token = access;
    refresh_token = plain;
    expires_in = access_token_ttl p / second;
  }

  -- The `models.RefreshToken` that the services hand to the store; the other fields are zero.
  abbrev pub new_row : User → Bytes → Bytes → ℕ → RefreshToken
  new_row u plain family_id now = record {
    id = 0;
    user_id = u.id;
    token_hash = hash_refresh_token p plain;
    family_id = family_id;
    expires_at = now + refresh_token_ttl p;
    consumed_at = none;
    revoked_at = none;
    created_at = 0;
    updated_at = 0;
  }

  store_pair : User → Bytes → Bytes → Bytes → Io W Error TokenPair
  store_pair u family_id access plain = elim refresh [
    | none ↦ raise (sentinel refresh_persist)
    | some store ↦ do
      now ← clock p
      map_err (wrap refresh_persist) (store.create (new_row u plain family_id now))
      pure (pair_of access plain)
  ]

  unfoldable issue_token_pair_with_family : User → Bytes → Io W Error TokenPair
  unfolding store_pair
  issue_token_pair_with_family u family_id = do
    role ← pure_role u
    access ← map_err (wrap token_generate) (generate_token p u.username u.id role)
    plain ← map_err (wrap token_generate) (new_opaque_token p)
    store_pair u family_id access plain

  unfoldable pub issue_token_pair : User → Io W Error TokenPair
  unfolding issue_token_pair_with_family
  issue_token_pair u = do
    family_id ← map_err (wrap token_generate) (new_family_id p)
    issue_token_pair_with_family u family_id

  unfoldable pub login : (username password : Bytes) → Io W Error TokenPair
  unfolding issue_token_pair
  login username password = do
    u ← map_err (lookup_error invalid_login login_db) (users.find_by_username username)
    if p.bcrypt_compare u.password password
        then issue_token_pair u
        else raise (sentinel invalid_login)

  module _ (store : RefreshTokenPersistence W) where
    -- Revokes the family of a token that was presented again.
    unfoldable pub revoke_reused : Bytes → ℕ → Io W Error TokenPair
    revoke_reused family_id now = do
      map_err (wrap refresh_persist) (store.revoke_family family_id now)
      raise (sentinel refresh_reuse)

    unfoldable pub after_rotation :
        RefreshToken → ℕ → TokenPair → Result Error RefreshToken → Io W Error TokenPair
    unfolding revoke_reused
    after_rotation row now pair (ok next) = pure pair
    after_rotation row now pair (err e) =
        if is e refresh_already_consumed
        then revoke_reused row.family_id now
        else raise (wrap refresh_persist e)

    -- `Refresh` from the issue of the access token on.
    unfoldable pub rotate_as : RefreshToken → ℕ → User → Bytes → Io W Error TokenPair
    unfolding after_rotation
    rotate_as row now u role = do
      access ← map_err (wrap token_generate) (generate_token p u.username u.id role)
      plain ← map_err (wrap token_generate) (new_opaque_token p)
      r ← attempt (store.rotate_atomically row.id now (new_row u plain row.family_id now))
      after_rotation row now (pair_of access plain) r

    unfoldable pub rotate : RefreshToken → ℕ → Io W Error TokenPair
    unfolding rotate_as
    rotate row now = do
      u ← map_err (lookup_error invalid_refresh login_db) (users.find_by_id row.user_id)
      role ← pure_role u
      rotate_as row now u role

    unfoldable pub present_row : RefreshToken → ℕ → Io W Error TokenPair
    unfolding rotate
    present_row row now =
        if not (is_null row.revoked_at)
        then raise (sentinel invalid_refresh)
        else if ltb row.expires_at now
        then raise (sentinel invalid_refresh)
        else if not (is_null row.consumed_at)
        then revoke_reused row.family_id now
        else rotate row now

    unfoldable pub refresh_with : Bytes → Io W Error TokenPair
    unfolding present_row
    refresh_with plaintext = if is_empty plaintext then raise (sentinel invalid_refresh) else do
      row ←
          map_err (lookup_error invalid_refresh refresh_persist)
            (store.find_by_hash (hash_refresh_token p plaintext))
      now ← clock p
      present_row row now

    -- What `FindByHash` found for the refresh token of a logout.
    logout_found : ℕ → ℕ → Result Error RefreshToken → Io W Error (Unit {0})
    logout_found user_id now (ok row) =
        if row.user_id == user_id
        then map_err (wrap logout_persist) (store.revoke_family row.family_id now)
        else pure tt
    logout_found user_id now (err e) =
        if is_not_found e then pure tt else raise (wrap logout_persist e)

    logout_all : ℕ → ℕ → Io W Error (Unit {0})
    logout_all user_id now = do
      map_err (wrap logout_persist) (store.revoke_all_for_user user_id now)
      attempt (denylist.deny_user_before user_id (some now))
      pure tt

    revoke_refresh : ℕ → Bytes → ℕ → Io W Error (Unit {0})
    unfolding logout_found logout_all
    revoke_refresh user_id plaintext now = if is_empty plaintext then logout_all user_id now else do
      r ← attempt (store.find_by_hash (hash_refresh_token p plaintext))
      logout_found user_id now r

    deny_access : Bytes → Option ℕ → Io W Error (Unit {0})
    deny_access jti none = pure tt
    deny_access jti (some exp) =
        if is_empty jti then pure tt else do attempt (denylist.deny jti exp); pure tt

    unfoldable logout_with : ℕ → Bytes → Bytes → Option ℕ → Io W Error (Unit {0})
    unfolding revoke_refresh deny_access
    logout_with user_id plaintext jti exp = do
      now ← clock p
      revoke_refresh user_id plaintext now
      deny_access jti exp

  unfoldable pub refresh_tokens : (plaintext : Bytes) → Io W Error TokenPair
  unfolding refresh_with
  refresh_tokens plaintext w = elim refresh [
    | none ↦ raise (sentinel refresh_persist) w
    | some store ↦ refresh_with store plaintext w
  ]

  -- An `exp` of `none` is the zero time.
  unfoldable pub logout :
      (user_id : ℕ) (plaintext jti : Bytes) (exp : Option ℕ) → Io W Error (Unit {0})
  unfolding logout_with
  logout user_id plaintext jti exp w = elim refresh [
    | none ↦ raise (sentinel logout_persist) w
    | some store ↦ logout_with store user_id plaintext jti exp w
  ]

  abbrev hash_error : Cause → Error
  hash_error bcrypt_too_long = sentinel password_too_long
  hash_error e = wrap register_hash (cause e)

  abbrev save_error : Error → Error
  save_error e = if is e username_conflict then sentinel register_conflict else wrap register_save e

  abbrev new_user : Bytes → Bytes → User
  new_user username hashed = record {
    id = 0;
    username = username;
    password = hashed;
    role = role_user;
    created_at = 0;
    updated_at = 0;
  }

  unfoldable pub register : (username password : Bytes) → Io W Error (Unit {0})
  register username password =
      if ltb 72 (length password) then raise (sentinel password_too_long) else do
        hashed ← map_err hash_error (hash_password p password)
        map_err save_error (users.create (new_user username hashed))
        pure tt
