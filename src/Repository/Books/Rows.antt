-- ===== src/Repository/Books/Rows.antt =====
-- pkg/repository/book_sqlc.go: the rows that the methods of the book store change.
use golang_rest_api_template.Repository.Tables
use golang_rest_api_template.Base.{
  ℕ, ◌≡◌, ◌≢◌, inl, inr, Option, none, some, arith, ◌==◌, Bool-cases, Option-cases, Bytes,
}
use golang_rest_api_template.Repository.Tables.{Tables, get_book}
use golang_rest_api_template.Models.{Book}
use golang_rest_api_template.Result.{ok, Result-cases, map_err_ok}
use golang_rest_api_template.Errors.{map_not_found}
use golang_rest_api_template.Repository.Driver.{Driver, DriverLaws, exec}
use golang_rest_api_template.Repository.Driver.Laws.{exec_ok, exec_cases, exec-respects}
use golang_rest_api_template.Repository.Books.{
  to_int64, create, first_by_id, update_fields, patch_fields, patch_given, delete_by_id,
}
use golang_rest_api_template.Repository.Tables.Books.{
  book_of, KeepsBook, update_book_fields-KeepsBook, patch_book_fields-KeepsBook,
  delete_book-KeepsBook, create_book-KeepsBook,
}

module _ {W : Type 0} (d : Driver W) (laws : DriverLaws d) where
  -- `FirstByID` changes nothing, and returns the row if it succeeds.
  pub first_by_id-keeps : (id : ℕ) (w : W) → d.tables (first_by_id d id w).1 ≡ d.tables w
  unfolding first_by_id get_book
  first_by_id-keeps id w = elim (exec_cases d laws (get_book _) w) [ inl e ↦ e | inr e ↦ e ]

  pub first_by_id_ok :
      (id : ℕ) (w : W) (b : Book)
      → (first_by_id d id w).0 ≡ ok b
      → book_of (to_int64 id) (d.tables w) ≡ some b
  unfolding first_by_id get_book
  first_by_id_ok id w b e =
      let (got, left) =
        exec_ok d laws (get_book (to_int64 id)) w b
          (map_err_ok map_not_found (exec d (get_book (to_int64 id))) w b e) in
      ground (arith, Option-cases (book_of (to_int64 id) (d.tables w)))

  pub create-KeepsBook :
      (book : Book) (j : ℕ) (w : W) → KeepsBook j (d.tables w) (d.tables (create d book w).1)
  unfolding create
  create-KeepsBook book j w =
      exec-respects d laws
        (Tables.create_book (d.now w) (to_int64 book.owner_id) book.title book.author) (KeepsBook j)
        (λ t x h. h) (create_book-KeepsBook (d.now w) _ book.title book.author j) w

  pub update_fields-KeepsBook :
      (id : ℕ) (title author : Bytes) (j : ℕ) (w : W)
      → j ≢ to_int64 id
      → KeepsBook j (d.tables w) (d.tables (update_fields d id title author w).1)
  unfolding update_fields
  update_fields-KeepsBook id title author j w other =
      exec-respects d laws (Tables.update_book_fields (d.now w) (to_int64 id) title author)
        (KeepsBook j) (λ t x h. h)
        (λ t. update_book_fields-KeepsBook (d.now w) (to_int64 id) title author j t other) w

  patch_given-KeepsBook :
      (id : ℕ) (title author : Option Bytes) (j : ℕ) (w : W)
      → j ≢ to_int64 id
      → KeepsBook j (d.tables w) (d.tables (patch_given d id title author w).1)
  unfolding patch_given
  patch_given-KeepsBook id title author j w other =
      exec-respects d laws (Tables.patch_book_fields (d.now w) (to_int64 id) title author)
        (KeepsBook j) (λ t x h. h)
        (λ t. patch_book_fields-KeepsBook (d.now w) (to_int64 id) title author j t other) w

  pub patch_fields-KeepsBook :
      (id : ℕ) (title author : Option Bytes) (j : ℕ) (w : W)
      → j ≢ to_int64 id
      → KeepsBook j (d.tables w) (d.tables (patch_fields d id title author w).1)
  unfolding patch_fields
  patch_fields-KeepsBook id none none j w other = λ b e. rw (first_by_id-keeps id w) e
  patch_fields-KeepsBook id none (some author) j w other =
      patch_given-KeepsBook id none (some author) j w other
  patch_fields-KeepsBook id (some title) author j w other =
      patch_given-KeepsBook id (some title) author j w other

  pub delete_by_id-KeepsBook :
      (id j : ℕ) (w : W)
      → j ≢ to_int64 id
      → KeepsBook j (d.tables w) (d.tables (delete_by_id d id w).1)
  unfolding delete_by_id
  delete_by_id-KeepsBook id j w other =
      let stmt = Tables.delete_book (to_int64 id) in
      let kept =
        exec-respects d laws stmt (KeepsBook j) (λ t x h. h)
          (λ t. delete_book-KeepsBook (to_int64 id) j t other) w in
      elim (Result-cases (exec d stmt w).0) [
        | inr (x, e) ↦ rw e kept
        | inl (n, e) ↦ rw e (elim (Bool-cases (n == 0)) [ inl z ↦ rw z kept | inr z ↦ rw z kept ])
      ]
