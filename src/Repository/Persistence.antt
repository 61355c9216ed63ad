-- ===== src/Repository/Persistence.antt =====
-- pkg/repository/book.go, user.go and refresh.go: the interfaces that the services take. A method
-- that writes through a pointer returns the record that it leaves there.
use golang_rest_api_template.Base.{ℕ, Bytes, Option, List}
use golang_rest_api_template.Result.{Io}
use golang_rest_api_template.Errors.{Error}
use golang_rest_api_template.Models.{Book, User, RefreshToken}

-- `offset` and `limit` are integers that the HTTP layer has checked to be at least 0 and 1.
pub record BookListQuery : Type 0 where
  pub offset : ℕ
  pub limit : ℕ
  pub title_like : Bytes
  pub author_like : Bytes
  pub owner_id : Option ℕ
  pub sort : Bytes
  pub order : Bytes

pub record BookPersistence (W : Type 0) : Type 0 where
  pub list : BookListQuery → Io W Error (List Book)
  pub create : Book → Io W Error Book
  pub first_by_id : (id : ℕ) → Io W Error Book
  pub update_fields : (id : ℕ) (title author : Bytes) → Io W Error Book
  pub patch_fields : (id : ℕ) (title author : Option Bytes) → Io W Error Book
  pub delete_by_id : (id : ℕ) → Io W Error (Unit {0})

pub record UserPersistence (W : Type 0) : Type 0 where
  pub find_by_username : Bytes → Io W Error User
  pub find_by_id : ℕ → Io W Error User
  pub create : User → Io W Error User

pub record RefreshTokenPersistence (W : Type 0) : Type 0 where
  pub create : RefreshToken → Io W Error RefreshToken
  pub find_by_hash : Bytes → Io W Error RefreshToken
  pub rotate_atomically : (old_id at : ℕ) → RefreshToken → Io W Error RefreshToken
  pub revoke_family : (family_id : Bytes) (at : ℕ) → Io W Error (Unit {0})
  pub revoke_all_for_user : (user_id at : ℕ) → Io W Error (Unit {0})
