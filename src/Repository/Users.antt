-- ===== src/Repository/Users.antt =====
-- pkg/repository/user_sqlc.go.
pub mod Unique
use golang_rest_api_template.Base.{ℕ, Bytes, if◌then◌else◌}
use golang_rest_api_template.Result.{Io, map_err}
use golang_rest_api_template.Errors.{
  Error, Cause, wrap, cause, username_conflict, map_not_found, is_username_unique_constraint_error,
}
use golang_rest_api_template.Models.{User}
use golang_rest_api_template.Repository.Tables.{create_user, get_user_by_username, get_user_by_id}
use golang_rest_api_template.Repository.Driver.{Driver, exec}
use golang_rest_api_template.Repository.Books.{to_int64}
use golang_rest_api_template.Repository.Persistence.{UserPersistence}

unfoldable pub create_error : Cause → Error
create_error e =
    if is_username_unique_constraint_error e then wrap username_conflict (cause e) else cause e

module _ {W : Type 0} (d : Driver W) where
  unfoldable pub find_by_username : Bytes → Io W Error User
  find_by_username username = map_err map_not_found (exec d (get_user_by_username username))

  unfoldable pub find_by_id : ℕ → Io W Error User
  unfolding to_int64
  find_by_id id = map_err map_not_found (exec d (get_user_by_id (to_int64 id)))

  unfoldable pub create : User → Io W Error User
  unfolding create_error
  create user w =
      map_err create_error (exec d (create_user (d.now w) user.username user.password user.role)) w

  abbrev pub user_store : UserPersistence W
  user_store = record {
    find_by_username = find_by_username;
    find_by_id = find_by_id;
    create = create;
  }
