-- ===== src/Repository/Tables/Finds.antt =====
-- The rows that an update, an insert and a delete leave to be found.
use golang_rest_api_template.Base.{
  ℕ, ◌≤◌, ◌<◌, ◌≡◌, refl, ◌≢◌, inl, inr, Bool, false, not, Option, none, some, List, [], ◌∷◌, ◌++◌,
  arith, ◌==◌, if◌then◌else◌, ==_iff, Bool-cases, find, filter, All,
}
use golang_rest_api_template.Models.{Book}
use golang_rest_api_template.Repository.Tables.{update_where, count_where}

abbrev pub set_at : ℕ → Option Book → (ℕ → Option Book) → ℕ → Option Book
set_at id o at j = if j == id then o else at j

module _ (id : ℕ) (f : Book → Book) (same : (b : Book) → (f b).id ≡ b.id) where
  pub update_miss :
      (j : ℕ) (rows : List Book)
      → find (λ b. b.id == id) rows ≡ none
      → find (λ b. b.id == j) (update_where (λ b. b.id == id) f rows) ≡ find (λ b. b.id == j) rows
  update_miss j [] e = refl
  update_miss j (b ∷ rows) e = ground (arith, update_miss j rows)

  update_hit_self :
      (rows : List Book) (b : Book)
      → find (λ b. b.id == id) rows ≡ some b
      → find (λ b. b.id == id) (update_where (λ b. b.id == id) f rows) ≡ some (f b)
  update_hit_self [] b e = cc
  update_hit_self (x ∷ rows) b e = ground (arith, same x, update_hit_self rows b)

  update_ne :
      (j : ℕ) (rows : List Book)
      → j ≢ id
      → find (λ b. b.id == j) (update_where (λ b. b.id == id) f rows) ≡ find (λ b. b.id == j) rows
  update_ne j [] other = refl
  update_ne j (b ∷ rows) other = ground (arith, same b, update_ne j rows)

  pub update_hit :
      (j : ℕ) (rows : List Book) (b : Book)
      → find (λ b. b.id == id) rows ≡ some b
      → find (λ b. b.id == j) (update_where (λ b. b.id == id) f rows)
        ≡ set_at id (some (f b)) (λ k. find (λ c. c.id == k) rows) j
  update_hit j rows b e = elim (Bool-cases (j == id)) [
    | inl h ↦ let p : j ≡ id = (==_iff j id).0 h in rw (h, p) (update_hit_self rows b e)
    | inr h ↦ rw h (update_ne j rows (λ p. absurd (ground arith)))
  ]

  pub All-update_where :
      (n : ℕ) (rows : List Book)
      → All (λ b. b.id < n) rows
      → All (λ b. b.id < n) (update_where (λ b. b.id == id) f rows)
  All-update_where n [] h = tt
  All-update_where n (b ∷ rows) (p, h) = (ground (arith, same b), All-update_where n rows h)

find-filter_self :
    (id : ℕ) (rows : List Book)
    → find (λ b. b.id == id) (filter (λ b. not (b.id == id)) rows) ≡ none
find-filter_self id [] = refl
find-filter_self id (b ∷ rows) = ground (arith, find-filter_self id rows)

pub find-insert :
    (j : ℕ) (rows : List Book) (row : Book)
    → All (λ b. b.id < row.id) rows
    → find (λ b. b.id == j) (rows ++ row ∷ [])
      ≡ set_at row.id (some row) (λ k. find (λ b. b.id == k) rows) j
find-insert j [] row h = ground arith
find-insert j (b ∷ rows) row (p, h) = ground (arith, find-insert j rows row h)

pub count_miss :
    (id : ℕ) (rows : List Book)
    → find (λ b. b.id == id) rows ≡ none
    → count_where (λ b. b.id == id) rows ≡ 0
count_miss id [] e = refl
count_miss id (b ∷ rows) e = ground (arith, count_miss id rows)

pub count_hit :
    (id : ℕ) (rows : List Book) (b : Book)
    → find (λ b. b.id == id) rows ≡ some b
    → (count_where (λ b. b.id == id) rows == 0) ≡ false
count_hit id [] b e = cc
count_hit id (x ∷ rows) b e = ground (arith, count_hit id rows b)

filter_ne :
    (id j : ℕ) (rows : List Book)
    → j ≢ id
    → find (λ b. b.id == j) (filter (λ b. not (b.id == id)) rows) ≡ find (λ b. b.id == j) rows
filter_ne id j [] other = refl
filter_ne id j (b ∷ rows) other = ground (arith, filter_ne id j rows other)

pub filter_at :
    (id j : ℕ) (rows : List Book)
    → find (λ b. b.id == j) (filter (λ b. not (b.id == id)) rows)
      ≡ set_at id none (λ k. find (λ b. b.id == k) rows) j
filter_at id j rows = elim (Bool-cases (j == id)) [
  | inl h ↦ let p : j ≡ id = (==_iff j id).0 h in rw (h, p) (find-filter_self id rows)
  | inr h ↦ rw h (filter_ne id j rows (λ p. absurd (ground arith)))
]

pub All-filter :
    (p : Book → Bool) (n : ℕ) (rows : List Book)
    → All (λ b. b.id < n) rows
    → All (λ b. b.id < n) (filter p rows)
All-filter p n [] h = tt
All-filter p n (b ∷ rows) (q, h) = elim (Bool-cases (p b)) [
  | inl e ↦ rw e (q, All-filter p n rows h)
  | inr e ↦ rw e (All-filter p n rows h)
]

pub books_below :
    (m n : ℕ) (rows : List Book) → m ≤ n → All (λ b. b.id < m) rows → All (λ b. b.id < n) rows
books_below m n [] k h = tt
books_below m n (b ∷ rows) k (q, h) = (omega arith, books_below m n rows k h)
