-- ===== src/Repository/Books/Shelf.antt =====
-- pkg/repository/book_sqlc.go: the book store against a map from ids to books, which forgets the order
-- of the rows, how the columns are written, and SQL.
pub mod Refine
pub mod Calls
use golang_rest_api_template.Repository.Tables.Finds.{set_at}
use golang_rest_api_template.Base.{ℕ, ◌+◌, ◌<◌, ◌≡◌, refl, Option, none, some, All, Bytes}
use golang_rest_api_template.Errors.{Error, sentinel, not_found}
use golang_rest_api_template.Repository.Books.{to_int64}
use golang_rest_api_template.Result.{Result, err, ok}
use golang_rest_api_template.Models.{Book}
use golang_rest_api_template.Repository.Tables.{Tables, coalesce, book_row}
use golang_rest_api_template.Repository.Tables.Books.{book_of}

pub record Shelf : Type 0 where
  pub at : ℕ → Option Book
  pub next : ℕ

pub data BookCall : Type 0 where
  creates : Book → BookCall
  finds : (id : ℕ) → BookCall
  updates : (id : ℕ) (title author : Bytes) → BookCall
  patches : (id : ℕ) (title author : Option Bytes) → BookCall
  deletes : (id : ℕ) → BookCall

-- A book, or nothing for a deletion.
abbrev pub Reply : Type 0
Reply = Result Error (Option Book)

abbrev pub missing : Reply
missing = err (sentinel not_found)

abbrev pub found_or_missing : Option Book → Reply
found_or_missing none = missing
found_or_missing (some b) = ok (some b)

-- A book that is there is replaced, and returned.
abbrev pub change : ℕ → (Book → Book) → Shelf → Reply × Shelf
change id f s = elim (s.at id) [
  | none ↦ (missing, s)
  | some b ↦ (ok (some (f b)), record s { at = set_at id (some (f b)) s.at })
]

abbrev pub remove : ℕ → Shelf → Reply × Shelf
remove id s = elim (s.at id) [
  | none ↦ (missing, s)
  | some b ↦ (ok none, record s { at = set_at id none s.at })
]

abbrev pub patched : ℕ → Option Bytes → Option Bytes → Book → Book
patched now title author b = record b {
  title = coalesce title b.title;
  author = coalesce author b.author;
  updated_at = now;
}

-- What a call promises, at the time `now`; nothing to patch is a lookup.
unfoldable pub promise : ℕ → BookCall → Shelf → Reply × Shelf
unfolding to_int64
promise now (creates b) s =
    let row = book_row s.next now (to_int64 b.owner_id) b.title b.author in
    (ok (some row), record { at = set_at s.next (some row) s.at; next = s.next + 1 })
promise now (finds id) s = (found_or_missing (s.at (to_int64 id)), s)
promise now (updates id title author) s =
    change (to_int64 id) (patched now (some title) (some author)) s
promise now (patches id none none) s = (found_or_missing (s.at (to_int64 id)), s)
promise now (patches id none (some author)) s =
    change (to_int64 id) (patched now none (some author)) s
promise now (patches id (some title) author) s =
    change (to_int64 id) (patched now (some title) author) s
promise now (deletes id) s = remove (to_int64 id) s

abbrev pub shelf_of : Tables → Shelf
shelf_of t = record { at = λ j. book_of j t; next = t.books.next_id }

pub record Same (s s' : Shelf) : Type 0 where
  pub same_at : (j : ℕ) → s.at j ≡ s'.at j
  pub same_next : s.next ≡ s'.next

pub Same-refl : (s : Shelf) → Same s s
Same-refl s = record { same_at = λ j. refl; same_next = refl }

-- The ids of the books are below the sequence.
abbrev pub IsNumbered : Tables → Type 0
IsNumbered t = All (λ b. b.id < t.books.next_id) t.books.rows
