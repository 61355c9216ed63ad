-- ===== src/Repository/Tables/Books.antt =====
-- The statements on `books` and the rows of other ids.
use golang_rest_api_template.Base.{
  ℕ, ◌≡◌, refl, ◌∙◌, ◌≢◌, not, Option, some, List, [], ◌∷◌, ◌++◌, arith, ◌==◌, find, filter, Bytes,
}
use golang_rest_api_template.Repository.Tables.{
  create_book, delete_book, update_book_fields, patch_book_fields, update_where, Tables,
}
use golang_rest_api_template.Models.{Book}
use golang_rest_api_template.Models.{Book}
use golang_rest_api_template.Repository.Tables.{update_book_fields, patch_book_fields, Tables}

-- The row that `FirstByID` sees.
abbrev pub book_of : ℕ → Tables → Option Book
book_of j t = find (λ b. b.id == j) t.books.rows

-- The row with the id `j` is as it was.
abbrev pub KeepsBook : ℕ → Tables → Tables → Type 0
KeepsBook j t t' = (b : Book) → book_of j t ≡ some b → book_of j t' ≡ some b

module _ (id j : ℕ) (other : j ≢ id) (f : Book → Book) (same : (b : Book) → (f b).id ≡ b.id) where
  find-update_where_ne :
      (rows : List Book)
      → find (λ b. b.id == j) (update_where (λ b. b.id == id) f rows) ≡ find (λ b. b.id == j) rows
  find-update_where_ne [] = refl
  find-update_where_ne (b ∷ rows) = ground (arith, same b, find-update_where_ne rows)

find-filter_ne :
    (id j : ℕ) (rows : List Book)
    → j ≢ id
    → find (λ b. b.id == j) (filter (λ b. not (b.id == id)) rows) ≡ find (λ b. b.id == j) rows
find-filter_ne id j [] other = refl
find-filter_ne id j (b ∷ rows) other = ground (arith, find-filter_ne id j rows other)

find-append_some :
    (j : ℕ) (rows more : List Book) (b : Book)
    → find (λ x. x.id == j) rows ≡ some b
    → find (λ x. x.id == j) (rows ++ more) ≡ some b
find-append_some j [] more b e = cc
find-append_some j (x ∷ rows) more b e = ground (arith, find-append_some j rows more b)

pub update_book_fields-KeepsBook :
    (now id : ℕ) (title author : Bytes) (j : ℕ) (t : Tables)
    → j ≢ id
    → KeepsBook j t (update_book_fields now id title author t).1
unfolding update_book_fields
update_book_fields-KeepsBook now id title author j t other b e =
    find-update_where_ne id j other _ (λ x. refl) t.books.rows ∙ e

pub patch_book_fields-KeepsBook :
    (now id : ℕ) (title author : Option Bytes) (j : ℕ) (t : Tables)
    → j ≢ id
    → KeepsBook j t (patch_book_fields now id title author t).1
unfolding patch_book_fields
patch_book_fields-KeepsBook now id title author j t other b e =
    find-update_where_ne id j other _ (λ x. refl) t.books.rows ∙ e

pub delete_book-KeepsBook : (id j : ℕ) (t : Tables) → j ≢ id → KeepsBook j t (delete_book id t).1
unfolding delete_book
delete_book-KeepsBook id j t other b e = find-filter_ne id j t.books.rows other ∙ e

pub create_book-KeepsBook :
    (now owner_id : ℕ) (title author : Bytes) (j : ℕ) (t : Tables)
    → KeepsBook j t (create_book now owner_id title author t).1
unfolding create_book
create_book-KeepsBook now owner_id title author j t b e = find-append_some j t.books.rows _ b e
