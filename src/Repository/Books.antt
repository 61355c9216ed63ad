-- ===== src/Repository/Books.antt =====
-- pkg/repository/book_sqlc.go, but for `List`, and conv.go.
pub mod Rows
pub mod Shelf
use golang_rest_api_template.Repository.Persistence.{BookListQuery, BookPersistence}
use golang_rest_api_template.Repository.Persistence.{BookListQuery, BookPersistence}
use golang_rest_api_template.Base.{ℕ, Bytes, ltb, ◌==◌, if◌then◌else◌, Option, none, some, List}
use golang_rest_api_template.Result.{Io, ◌>>=◌, pure, raise, map_err}
use golang_rest_api_template.Errors.{Error, sentinel, cause, not_found, map_not_found}
use golang_rest_api_template.Models.{Book}
use golang_rest_api_template.Repository.Tables.{
  create_book, get_book, update_book_fields, patch_book_fields, delete_book,
}
use golang_rest_api_template.Repository.Driver.{Driver, exec}

-- `toInt64`: a value above `math.MaxInt64` is clamped.
unfoldable pub to_int64 : ℕ → ℕ
to_int64 v = if ltb 9223372036854775807 v then 9223372036854775807 else v

module _ {W : Type 0} (d : Driver W) where
  unfoldable pub create : Book → Io W Error Book
  unfolding to_int64
  create book w =
      map_err cause (exec d (create_book (d.now w) (to_int64 book.owner_id) book.title book.author))
        w

  unfoldable pub first_by_id : ℕ → Io W Error Book
  unfolding to_int64
  first_by_id id = map_err map_not_found (exec d (get_book (to_int64 id)))

  unfoldable pub update_fields : ℕ → Bytes → Bytes → Io W Error Book
  unfolding to_int64
  update_fields id title author w =
      map_err map_not_found (exec d (update_book_fields (d.now w) (to_int64 id) title author)) w

  pub patch_given : ℕ → Option Bytes → Option Bytes → Io W Error Book
  patch_given id title author w =
      map_err map_not_found (exec d (patch_book_fields (d.now w) (to_int64 id) title author)) w

  unfoldable pub patch_fields : ℕ → Option Bytes → Option Bytes → Io W Error Book
  unfolding to_int64 first_by_id patch_given
  patch_fields id none none = first_by_id id
  patch_fields id none (some author) = patch_given id none (some author)
  patch_fields id (some title) author = patch_given id (some title) author

  unfoldable pub delete_by_id : ℕ → Io W Error (Unit {0})
  unfolding to_int64
  delete_by_id id = do
    n ← map_err cause (exec d (delete_book (to_int64 id)))
    if n == 0 then raise (sentinel not_found) else pure tt

-- The store, given what `List` returns.
abbrev pub book_store :
    {W : Type 0} → Driver W → (BookListQuery → Io W Error (List Book)) → BookPersistence W
book_store d list = record {
  list = list;
  create = create d;
  first_by_id = first_by_id d;
  update_fields = update_fields d;
  patch_fields = patch_fields d;
  delete_by_id = delete_by_id d;
}
