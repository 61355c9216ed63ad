-- ===== src/Repository/Tables.antt =====
-- pkg/repository/dbsqlc: the SQL statements, each as what it does to the tables of
-- pkg/database/schema.sql. A statement returns its rows or its row count, or fails by a
-- constraint; `now` is the value of `now()`. Columns of type BIGINT hold no negative number, since
-- ids come from a sequence and all other values from `to_int64`.
pub mod Books
pub mod Finds
pub mod Tokens
pub mod Evolution
use golang_rest_api_template.Base.{
  ℕ, ◌+◌, Bytes, lit, ◌==◌, ◌=s◌, if◌then◌else◌, Bool, true, false, not, ◌&&◌, Option, none, some,
  List, [], ◌∷◌, ◌++◌, map, find, filter, any, length,
}
use golang_rest_api_template.Result.{Result, ok, err, Io}
use golang_rest_api_template.Errors.{Cause, no_rows, pg}
use golang_rest_api_template.Models.{Book, User, RefreshToken}

-- `next_id` is the BIGSERIAL sequence.
pub record Table (A : Type 0) : Type 0 where
  pub rows : List A
  pub next_id : ℕ

pub record Tables : Type 0 where
  pub books : Table Book
  pub users : Table User
  pub tokens : Table RefreshToken

abbrev pub Statement : Type 0 → Type 0
Statement A = Io Tables Cause A

abbrev pub is_null : Option ℕ → Bool
is_null none = true
is_null (some t) = false

module _ {A : Type 0} where
  -- A `:one` query: `Scan` of no row is `pgx.ErrNoRows`.
  abbrev pub one : Option A → Result Cause A
  one none = err no_rows
  one (some r) = ok r

  abbrev pub update_row : (A → Bool) → (A → A) → A → A
  update_row p f r = if p r then f r else r

  abbrev pub update_where : (A → Bool) → (A → A) → List A → List A
  update_where p f = map (update_row p f)

  abbrev pub count_where : (A → Bool) → List A → ℕ
  count_where p rows = length (filter p rows)

-- `COALESCE($1, old)`.
abbrev pub coalesce : Option Bytes → Bytes → Bytes
coalesce none old = old
coalesce (some new) old = new

abbrev pub book_row : ℕ → ℕ → ℕ → Bytes → Bytes → Book
book_row id now owner_id title author = record {
  id = id;
  owner_id = owner_id;
  title = title;
  author = author;
  created_at = now;
  updated_at = now;
}

unfoldable pub create_book : (now owner_id : ℕ) (title author : Bytes) → Statement Book
create_book now owner_id title author t =
    let row = book_row t.books.next_id now owner_id title author in
    (
      ok row,
      record t {
        books = record { rows = t.books.rows ++ row ∷ []; next_id = t.books.next_id + 1 };
      },
    )

unfoldable pub get_book : ℕ → Statement Book
get_book id t = (one (find (λ b. b.id == id) t.books.rows), t)

abbrev pub with_book_rows : Tables → List Book → Tables
with_book_rows t rows = record t { books = record { rows = rows; next_id = t.books.next_id } }

unfoldable pub update_book_fields : (now id : ℕ) (title author : Bytes) → Statement Book
update_book_fields now id title author t =
    let rows =
      update_where (λ b. b.id == id)
        (λ b. record b { title = title; author = author; updated_at = now }) t.books.rows in
    (one (find (λ b. b.id == id) rows), with_book_rows t rows)

unfoldable pub patch_book_fields : (now id : ℕ) (title author : Option Bytes) → Statement Book
patch_book_fields now id title author t =
    let rows =
      update_where (λ b. b.id == id)
        (λ b. record b {
          title = coalesce title b.title;
          author = coalesce author b.author;
          updated_at = now;
        })
        t.books.rows in
    (one (find (λ b. b.id == id) rows), with_book_rows t rows)

unfoldable pub delete_book : ℕ → Statement ℕ
delete_book id t = (
  ok (count_where (λ b. b.id == id) t.books.rows),
  with_book_rows t (filter (λ b. not (b.id == id)) t.books.rows),
)

-- The name that Postgres gives to the UNIQUE constraint of a column.
abbrev pub unique_violation : Bytes → Cause
unique_violation constraint_name = pg (lit "23505") constraint_name

abbrev pub user_row : ℕ → ℕ → Bytes → Bytes → Bytes → User
user_row id now username password role = record {
  id = id;
  username = username;
  password = password;
  role = role;
  created_at = now;
  updated_at = now;
}

unfoldable pub create_user : (now : ℕ) (username password role : Bytes) → Statement User
create_user now username password role t =
    let row = user_row t.users.next_id now username password role in
    if any (λ u. u.username =s username) t.users.rows
    then (err (unique_violation (lit "users_username_key")), t)
    else (
      ok row,
      record t {
        users = record { rows = t.users.rows ++ row ∷ []; next_id = t.users.next_id + 1 };
      },
    )

unfoldable pub get_user_by_username : Bytes → Statement User
get_user_by_username username t = (one (find (λ u. u.username =s username) t.users.rows), t)

unfoldable pub get_user_by_id : ℕ → Statement User
get_user_by_id id t = (one (find (λ u. u.id == id) t.users.rows), t)

abbrev pub with_token_rows : Tables → List RefreshToken → Tables
with_token_rows t rows = record t { tokens = record { rows = rows; next_id = t.tokens.next_id } }

abbrev pub token_row : ℕ → ℕ → ℕ → Bytes → Bytes → ℕ → RefreshToken
token_row id now user_id token_hash family_id expires_at = record {
  id = id;
  user_id = user_id;
  token_hash = token_hash;
  family_id = family_id;
  expires_at = expires_at;
  consumed_at = none;
  revoked_at = none;
  created_at = now;
  updated_at = now;
}

unfoldable pub create_refresh_token :
    (now user_id : ℕ) (token_hash family_id : Bytes) (expires_at : ℕ) → Statement RefreshToken
create_refresh_token now user_id token_hash family_id expires_at t =
    let row = token_row t.tokens.next_id now user_id token_hash family_id expires_at in
    if any (λ r. r.token_hash =s token_hash) t.tokens.rows
    then (err (unique_violation (lit "refresh_tokens_token_hash_key")), t)
    else (
      ok row,
      record t {
        tokens = record { rows = t.tokens.rows ++ row ∷ []; next_id = t.tokens.next_id + 1 };
      },
    )

unfoldable pub get_refresh_token_by_hash : Bytes → Statement RefreshToken
get_refresh_token_by_hash token_hash t =
    (one (find (λ r. r.token_hash =s token_hash) t.tokens.rows), t)

-- `consumed_at IS NULL AND revoked_at IS NULL`.
abbrev pub is_active : RefreshToken → Bool
is_active r = is_null r.consumed_at && is_null r.revoked_at

unfoldable pub consume_refresh_token_if_active : (now id at : ℕ) → Statement ℕ
consume_refresh_token_if_active now id at t =
    let p = λ (r : RefreshToken). (r.id == id) && is_active r in
    (
      ok (count_where p t.tokens.rows),
      with_token_rows t (
          update_where p (λ r. record r { consumed_at = some at; updated_at = now }) t.tokens.rows),
    )

unfoldable pub revoke_refresh_family : (now : ℕ) (family_id : Bytes) (at : ℕ) → Statement (Unit {0})
revoke_refresh_family now family_id at t = (
  ok tt,
  with_token_rows t (
      update_where (λ r. (r.family_id =s family_id) && is_null r.revoked_at)
        (λ r. record r { revoked_at = some at; updated_at = now }) t.tokens.rows),
)

unfoldable pub revoke_all_refresh_for_user : (now user_id at : ℕ) → Statement (Unit {0})
revoke_all_refresh_for_user now user_id at t = (
  ok tt,
  with_token_rows t (
      update_where (λ r. (r.user_id == user_id) && is_null r.revoked_at)
        (λ r. record r { revoked_at = some at; updated_at = now }) t.tokens.rows),
)
