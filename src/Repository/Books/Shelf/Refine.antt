-- ===== src/Repository/Books/Shelf/Refine.antt =====
-- pkg/repository/book_sqlc.go: each method of the book store does what the map promises.
use golang_rest_api_template.Base.{
  ℕ, ◌+◌, ◌≡◌, refl, sym, ◌∙◌, subst, ◌⊎◌, inl, inr, false, Option, none, some, arith, ◌==◌,
  if◌then◌else◌, ==_iff, ==-refl, Bool-cases, Option-cases, find, All-append, Bytes,
}
use golang_rest_api_template.Repository.Tables.Finds.{
  All-update_where, update_miss, set_at, update_hit, All-filter, books_below, count_miss, filter_at,
  count_hit, find-insert,
}
use golang_rest_api_template.Repository.Tables.Books.{book_of}
use golang_rest_api_template.Result.{Result, ok, err, is_ok}
use golang_rest_api_template.Errors.{Cause, cause, map_not_found}
use golang_rest_api_template.Repository.Driver.{Fault, Driver, DriverLaws, answer, exec}
use golang_rest_api_template.Models.{Book}
use golang_rest_api_template.Errors.{Cause}
use golang_rest_api_template.Repository.Driver.{Driver, DriverLaws, Fault}
use golang_rest_api_template.Result.{Result, is_ok, err}
use golang_rest_api_template.Repository.Tables
use golang_rest_api_template.Repository.Tables.{
  Tables, Statement, get_book, count_where, update_where, one, with_book_rows, book_row,
}
use golang_rest_api_template.Repository.Books.Shelf.{
  Shelf, Reply, shelf_of, Same, Same-refl, IsNumbered, missing, found_or_missing, change, remove,
}

abbrev pub row_reply : Result Cause Book → Reply
row_reply (ok b) = ok (some b)
row_reply (err x) = err (map_not_found x)

abbrev pub created_reply : Result Cause Book → Reply
created_reply (ok b) = ok (some b)
created_reply (err x) = err (cause x)

abbrev pub count_reply : Result Cause ℕ → Reply
count_reply (ok n) = if n == 0 then missing else ok none
count_reply (err x) = err (cause x)

-- What a call answered and left, against what is promised. A database error leaves the map as it
-- was, or as it is promised, where the failed statement took effect.
pub record IsServed (promised : Reply × Shelf) (before : Tables) (r : Reply) (after : Tables)
    : Type 0 where
  pub numbered : IsNumbered before → IsNumbered after
  pub served :
      IsNumbered before
      → ((r ≡ promised.0) × Same (shelf_of after) promised.1)
        ⊎ ((is_ok r ≡ false)
            × (Same (shelf_of after) (shelf_of before) ⊎ Same (shelf_of after) promised.1))

-- A statement that keeps a promise, where the driver lets it.
pub record KeepsPromise {A : Type 0} (promised : Reply × Shelf) (conv : Result Cause A → Reply)
    (stmt : Statement A) (t : Tables) : Type 0 where
  pub stays : IsNumbered t → IsNumbered (stmt t).1
  pub answers : conv (stmt t).0 ≡ promised.0
  pub leaves : IsNumbered t → Same (shelf_of (stmt t).1) promised.1

pub get_keeps :
    (id : ℕ) (t : Tables)
    → KeepsPromise (found_or_missing (book_of id t), shelf_of t) row_reply (get_book id) t
unfolding get_book
get_keeps id t = record {
  stays = λ n. n;
  answers = elim (Option-cases (book_of id t)) [ inl e ↦ rw e refl | inr (b, e) ↦ rw e refl ];
  leaves = λ n. Same-refl _;
}

pub create_keeps :
    (now owner_id : ℕ) (title author : Bytes) (t : Tables)
    → let row = book_row t.books.next_id now owner_id title author in
      KeepsPromise
        (
          ok (some row),
          record {
            at = set_at t.books.next_id (some row) (shelf_of t).at;
            next = t.books.next_id + 1;
          },
        )
        created_reply
        (Tables.create_book now owner_id title author)
        t
unfolding Tables.create_book
create_keeps now owner_id title author t = record {
  stays = λ n.
      All-append _ t.books.rows _
        (books_below t.books.next_id (t.books.next_id + 1) t.books.rows (omega arith) n)
        (omega arith, tt);
  answers = refl;
  leaves = λ n. record { same_at = λ j. find-insert j t.books.rows _ n; same_next = refl };
}

abbrev pub change_stmt : ℕ → (Book → Book) → Statement Book
change_stmt id f t =
    let rows = update_where (λ b. b.id == id) f t.books.rows in
    (one (find (λ b. b.id == id) rows), with_book_rows t rows)

change-missing :
    (id : ℕ) (f : Book → Book) (s : Shelf) → s.at id ≡ none → change id f s ≡ (missing, s)
change-missing id f s e = rw (e, change) refl

change_found :
    (id : ℕ) (f : Book → Book) (s : Shelf) (b : Book)
    → s.at id ≡ some b
    → change id f s ≡ (ok (some (f b)), record s { at = set_at id (some (f b)) s.at })
change_found id f s b e = rw (e, change) refl

remove-missing : (id : ℕ) (s : Shelf) → s.at id ≡ none → remove id s ≡ (missing, s)
remove-missing id s e = rw (e, remove) refl

remove_found :
    (id : ℕ) (s : Shelf) (b : Book)
    → s.at id ≡ some b
    → remove id s ≡ (ok none, record s { at = set_at id none s.at })
remove_found id s b e = rw (e, remove) refl

unset : (id j : ℕ) (s : Shelf) → s.at id ≡ none → set_at id none s.at j ≡ s.at j
unset id j s e = elim (Bool-cases (j == id)) [
  | inl h ↦ let p : j ≡ id = (==_iff j id).0 h in rw (h, p) (sym e)
  | inr h ↦ rw h refl
]

pub change_keeps :
    (id : ℕ) (f : Book → Book) (t : Tables)
    → ((b : Book) → (f b).id ≡ b.id)
    → KeepsPromise (change id f (shelf_of t)) row_reply (change_stmt id f) t
change_keeps id f t same = elim (Option-cases (book_of id t)) [
  | inl gone ↦
      subst (λ q. KeepsPromise q row_reply (change_stmt id f) t)
        (sym (change-missing id f (shelf_of t) gone))
        (record {
          stays = All-update_where id f same t.books.next_id t.books.rows;
          answers = rw (update_miss id f same id t.books.rows gone, gone) refl;
          leaves = λ n. record {
            same_at = λ j. update_miss id f same j t.books.rows gone;
            same_next = refl;
          };
        })
  | inr (b, there) ↦
      subst (λ q. KeepsPromise q row_reply (change_stmt id f) t)
        (sym (change_found id f (shelf_of t) b there))
        (record {
          stays = All-update_where id f same t.books.next_id t.books.rows;
          answers = rw (update_hit id f same id t.books.rows b there, ==-refl id) refl;
          leaves = λ n. record {
            same_at = λ j. update_hit id f same j t.books.rows b there;
            same_next = refl;
          };
        })
]

pub remove_keeps :
    (id : ℕ) (t : Tables)
    → KeepsPromise (remove id (shelf_of t)) count_reply (Tables.delete_book id) t
unfolding Tables.delete_book
remove_keeps id t = elim (Option-cases (book_of id t)) [
  | inl gone ↦
      subst (λ q. KeepsPromise q count_reply (Tables.delete_book id) t)
        (sym (remove-missing id (shelf_of t) gone))
        (record {
          stays = All-filter _ t.books.next_id t.books.rows;
          answers = rw (count_miss id t.books.rows gone) refl;
          leaves = λ n. record {
            same_at = λ j. filter_at id j t.books.rows ∙ unset id j (shelf_of t) gone;
            same_next = refl;
          };
        })
  | inr (b, there) ↦
      subst (λ q. KeepsPromise q count_reply (Tables.delete_book id) t)
        (sym (remove_found id (shelf_of t) b there))
        (record {
          stays = All-filter _ t.books.next_id t.books.rows;
          answers = rw (count_hit id t.books.rows b there) refl;
          leaves = λ n. record { same_at = λ j. filter_at id j t.books.rows; same_next = refl };
        })
]

module _ {W : Type 0} (d : Driver W) (laws : DriverLaws d) where
  module _ {A : Type 0} (promised : Reply × Shelf) (conv : Result Cause A → Reply)
      (fails : (x : Cause) → is_ok (conv (err x)) ≡ false) (stmt : Statement A) where
    answer-IsServed :
        (o : Option Fault) (w : W)
        → KeepsPromise promised conv stmt (d.tables w)
        → IsServed promised
            (d.tables w)
            (conv (answer d stmt o w).0)
            (d.tables (answer d stmt o w).1)
    answer-IsServed none w k =
        rw (laws.tables-put (stmt (d.tables w)).1 w)
          (record { numbered = k.stays; served = λ n. inl (k.answers, k.leaves n) })
    answer-IsServed (some f) w k = elim (Bool-cases f.lands) [
      | inl e ↦
          rw (e, laws.tables-put (stmt (d.tables w)).1 w)
            (record { numbered = k.stays; served = λ n. inr (fails f.reason, inr (k.leaves n)) })
      | inr e ↦
          rw e (record { numbered = λ n. n; served = λ n. inr (fails f.reason, inl (Same-refl _)) })
    ]

    pub exec-IsServed :
        (w : W)
        → KeepsPromise promised conv stmt (d.tables w)
        → IsServed promised (d.tables w) (conv (exec d stmt w).0) (d.tables (exec d stmt w).1)
    unfolding exec
    exec-IsServed w k =
        rw (sym (laws.tables-fault w))
          (answer-IsServed (d.fault w).0 (d.fault w).1 (rw (laws.tables-fault w) k))
