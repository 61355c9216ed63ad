-- ===== src/Repository/Books/Shelf/Calls.antt =====
-- pkg/repository/book_sqlc.go: the calls of the book store, over every behaviour of the driver.
use golang_rest_api_template.Base.{none, some}
use golang_rest_api_template.Models.{Book}
use golang_rest_api_template.Result.{Result, ok, err}
use golang_rest_api_template.Errors.{Error}
use golang_rest_api_template.Repository.Driver.{Driver}
use golang_rest_api_template.Repository.Tables
use golang_rest_api_template.Repository.Books
use golang_rest_api_template.Repository.Tables.{Tables}
use golang_rest_api_template.Repository.Books.{
  first_by_id, update_fields, patch_fields, delete_by_id,
}
use golang_rest_api_template.Repository.Books.Shelf.{
  Shelf, BookCall, creates, finds, updates, patches, deletes, Reply,
}

abbrev pub book_reply : Result Error Book → Reply
book_reply (ok b) = ok (some b)
book_reply (err e) = err e

abbrev pub unit_reply : Result Error (Unit {0}) → Reply
unit_reply (ok u) = ok none
unit_reply (err e) = err e

module _ {W : Type 0} (d : Driver W) where
  unfoldable pub call : BookCall → W → Reply × W
  call (creates b) w = let (r, w') = Books.create d b w in (book_reply r, w')
  call (finds id) w = let (r, w') = first_by_id d id w in (book_reply r, w')
  call (updates id title author) w =
      let (r, w') = update_fields d id title author w in (book_reply r, w')
  call (patches id title author) w =
      let (r, w') = patch_fields d id title author w in (book_reply r, w')
  call (deletes id) w = let (r, w') = delete_by_id d id w in (unit_reply r, w')
