-- ===== src/Errors.antt =====
-- The errors that the code tells apart: the sentinels of pkg/repository and pkg/service, what a
-- library returns, and `fmt.Errorf("%w: %v", sentinel, cause)`.
use golang_rest_api_template.Base.{
  Bytes, lit, to_lower, contains, ◌=s◌, if◌then◌else◌, Bool, true, false, ◌&&◌, [],
}

pub data Sentinel : Type 0 where
  not_found username_conflict refresh_already_consumed : Sentinel
  list_books_db list_books_marshal list_books_redis list_books_unmarshal book_forbidden : Sentinel
  invalid_login login_db token_generate register_conflict password_too_long : Sentinel
  register_hash register_save invalid_refresh refresh_reuse refresh_persist : Sentinel
  logout_persist : Sentinel

-- An error of a library: pgx, go-redis, bcrypt, or another one with its text.
pub data Cause : Type 0 where
  no_rows redis_nil bcrypt_too_long : Cause
  pg : (code constraint_name : Bytes) → Cause
  other : (text : Bytes) → Cause

-- `wrap` is `fmt.Errorf("%w: %v", sentinel, cause)`: `errors.Is` sees the sentinel alone, since
-- `%v` only prints the cause.
pub data Error : Type 0 where
  sentinel : Sentinel → Error
  wrap : Sentinel → Error → Error
  cause : Cause → Error
  message : Bytes → Error

abbrev code_of : Sentinel → Sentinel → Bool
code_of not_found not_found = true
code_of username_conflict username_conflict = true
code_of refresh_already_consumed refresh_already_consumed = true
code_of list_books_db list_books_db = true
code_of list_books_marshal list_books_marshal = true
code_of list_books_redis list_books_redis = true
code_of list_books_unmarshal list_books_unmarshal = true
code_of book_forbidden book_forbidden = true
code_of invalid_login invalid_login = true
code_of login_db login_db = true
code_of token_generate token_generate = true
code_of register_conflict register_conflict = true
code_of password_too_long password_too_long = true
code_of register_hash register_hash = true
code_of register_save register_save = true
code_of invalid_refresh invalid_refresh = true
code_of refresh_reuse refresh_reuse = true
code_of refresh_persist refresh_persist = true
code_of logout_persist logout_persist = true
code_of _ _ = false

-- `errors.Is(err, s)`.
abbrev pub is : Error → Sentinel → Bool
is (sentinel t) s = code_of t s
is (wrap t e) s = code_of t s
is (cause c) s = false
is (message m) s = false

-- `IsNotFound`, with its aliases `IsBookNotFound` and `IsUserNotFound`.
abbrev pub is_not_found : Error → Bool
is_not_found e = is e not_found

abbrev pub map_not_found : Cause → Error
map_not_found no_rows = sentinel not_found
map_not_found c = cause c

-- `err.Error()` of a library's error that is no `PgError`.
abbrev text_of : Cause → Bytes
text_of no_rows = lit "no rows in result set"
text_of redis_nil = lit "redis: nil"
text_of bcrypt_too_long = lit "bcrypt: password length exceeds 72 bytes"
text_of (pg code name) = []
text_of (other text) = text

abbrev in_text : Bytes → Bool
in_text s =
    if contains s (lit "username")
    then if contains s (lit "unique constraint")
      then true
      else contains s (lit "duplicate key") && contains s (lit "unique")
    else false

unfoldable pub is_username_unique_constraint_error : Cause → Bool
unfolding to_lower contains
is_username_unique_constraint_error (pg code name) =
    (code =s lit "23505") && contains name (lit "username")
is_username_unique_constraint_error no_rows = in_text (to_lower (text_of no_rows))
is_username_unique_constraint_error redis_nil = in_text (to_lower (text_of redis_nil))
is_username_unique_constraint_error bcrypt_too_long = in_text (to_lower (text_of bcrypt_too_long))
is_username_unique_constraint_error (other text) = in_text (to_lower text)
