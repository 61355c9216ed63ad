-- ===== src/Repository/RefreshTokens.antt =====
-- pkg/repository/refresh_sqlc.go.
pub mod Rotation
pub mod History
use golang_rest_api_template.Base.{ℕ, Bytes, ◌==◌, if◌then◌else◌}
use golang_rest_api_template.Result.{Io, ◌>>=◌, ◌>>◌, pure, raise, map_err}
use golang_rest_api_template.Errors.{
  Error, sentinel, cause, refresh_already_consumed, map_not_found,
}
use golang_rest_api_template.Models.{RefreshToken}
use golang_rest_api_template.Repository.Tables.{
  Tables, create_refresh_token, get_refresh_token_by_hash, consume_refresh_token_if_active,
  revoke_refresh_family, revoke_all_refresh_for_user,
}
use golang_rest_api_template.Repository.Driver.{Driver, exec, exec_tx, begin_tx, commit}
use golang_rest_api_template.Repository.Books.{to_int64}
use golang_rest_api_template.Repository.Persistence.{RefreshTokenPersistence}

module _ {W : Type 0} (d : Driver W) where
  unfoldable pub create : RefreshToken → Io W Error RefreshToken
  unfolding to_int64
  create token w =
      map_err cause
        (exec d (
          create_refresh_token (d.now w) (to_int64 token.user_id) token.token_hash token.family_id
            token.expires_at))
        w

  unfoldable pub find_by_hash : Bytes → Io W Error RefreshToken
  find_by_hash token_hash = map_err map_not_found (exec d (get_refresh_token_by_hash token_hash))

  -- The part of the transaction after the conditional consume has matched one row.
  pub insert_next : RefreshToken → Tables → Io W Error RefreshToken
  insert_next next t w =
      (do
        (row, t') ← map_err cause (
            exec_tx d
              (create_refresh_token (d.now w) (to_int64 next.user_id) next.token_hash next.family_id
                next.expires_at)
              t)
        map_err cause (commit d t')
        pure row)
        w

  -- The part of the transaction after `Begin`.
  pub consume_old : ℕ → ℕ → RefreshToken → Tables → Io W Error RefreshToken
  consume_old old_id at next t w =
      (do
        (n, t') ←
            map_err cause
              (exec_tx d (consume_refresh_token_if_active (d.now w) (to_int64 old_id) at) t)
        if n == 1 then insert_next next t' else raise (sentinel refresh_already_consumed))
        w

  unfoldable pub rotate_atomically : ℕ → ℕ → RefreshToken → Io W Error RefreshToken
  unfolding consume_old insert_next to_int64
  rotate_atomically old_id at next = do t ← map_err cause (begin_tx d); consume_old old_id at next t

  unfoldable pub revoke_family : Bytes → ℕ → Io W Error (Unit {0})
  revoke_family family_id at w =
      map_err cause (exec d (revoke_refresh_family (d.now w) family_id at)) w

  unfoldable pub revoke_all_for_user : ℕ → ℕ → Io W Error (Unit {0})
  unfolding to_int64
  revoke_all_for_user user_id at w =
      map_err cause (exec d (revoke_all_refresh_for_user (d.now w) (to_int64 user_id) at)) w

  abbrev pub refresh_store : RefreshTokenPersistence W
  refresh_store = record {
    create = create;
    find_by_hash = find_by_hash;
    rotate_atomically = rotate_atomically;
    revoke_family = revoke_family;
    revoke_all_for_user = revoke_all_for_user;
  }
