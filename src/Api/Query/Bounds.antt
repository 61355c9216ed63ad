-- ===== src/Api/Query/Bounds.antt =====
-- pkg/api/books.go: the list queries that `parseBookListQuery` accepts.
use golang_rest_api_template.Base.{
  ℕ, ◌≤◌, ◌≡◌, refl, ap, subst, inl, inr, Bool, true, false, ◌||◌, arith, ltb, if◌then◌else◌,
  Bool-cases, any, Bytes, lit, ◌=s◌, =s_sound, trim_space, to_lower,
}
use golang_rest_api_template.Result.{ok, ok-injective, err}
use golang_rest_api_template.Base.Integers.{ℤ}
use golang_rest_api_template.Repository.Persistence.{BookListQuery}
use golang_rest_api_template.Repository.ListQuery.{allowed_sort, sort_fields, orders}
use golang_rest_api_template.Http.{Context, Response}
use golang_rest_api_template.Base.Integers.{ℤ, pos, negsuc}
use golang_rest_api_template.Api.Query.{
  parse_book_list_query, parse_offset_limit, parse_sort, parse_order, find_books_min_limit,
  find_books_max_limit, Parsed, check_limit, check_offset, parse_int, list_query_of, parse_owner,
  check_page, ◌>>=◌, query_or,
}

parsed_ok :
    {A B : Type 0} (m : Parsed A) (f : A → Parsed B) (b : B)
    → (m >>= f) ≡ ok b
    → (a : A) × ((m ≡ ok a) × (f a ≡ ok b))
parsed_ok (ok a) f b e = (a, (refl, e))
parsed_ok (err r) f b e = absurd (cc e)

-- The value of a test that passed.
accepted :
    {A : Type 0} (test : Bool) (a b : A) (r : Response)
    → (if test then ok a else err r) ≡ ok b
    → (test ≡ true) × (a ≡ b)
accepted true a b r e = (refl, ok-injective e)
accepted false a b r e = absurd (cc e)

check_limit-bounds :
    (c : Context) (n : ℤ) (l : ℕ)
    → check_limit c n ≡ ok l
    → (find_books_min_limit ≤ l) × (l ≤ find_books_max_limit)
unfolding check_limit
check_limit-bounds c (negsuc n) l e = absurd (cc e)
check_limit-bounds c (pos n) l e = elim (Bool-cases (ltb n find_books_min_limit)) [
  | inl small ↦ absurd (cc (rw small at e))
  | inr enough ↦ let same = ok-injective (rw enough at e) in ground (arith, same)
]

check_page-bounds :
    (c : Context) (n m : ℤ) (o l : ℕ)
    → check_page c n m ≡ ok (o, l)
    → (find_books_min_limit ≤ l) × (l ≤ find_books_max_limit)
unfolding check_page
check_page-bounds c n m o l e =
    let (offset, (e1, rest1)) =
      parsed_ok (check_offset c n) (λ x. check_limit c m >>= λ y. ok (x, y)) (o, l) e in
    let (limit, (e2, rest2)) = parsed_ok (check_limit c m) (λ y. ok (offset, y)) (o, l) rest1 in
    let same : limit ≡ l = ap (λ p. p.1) (ok-injective rest2) in
    subst (λ n. (find_books_min_limit ≤ n) × (n ≤ find_books_max_limit)) same
      (check_limit-bounds c m limit e2)

parse_offset_limit-bounds :
    (c : Context) (o l : ℕ)
    → parse_offset_limit c ≡ ok (o, l)
    → (find_books_min_limit ≤ l) × (l ≤ find_books_max_limit)
unfolding parse_offset_limit
parse_offset_limit-bounds c o l e =
    let limit = parse_int c (lit "limit") (lit "10") (lit "Invalid limit format") in
    let (n, (e1, rest1)) =
      parsed_ok (parse_int c (lit "offset") (lit "0") (lit "Invalid offset format"))
        (λ x. limit >>= check_page c x) (o, l) e in
    let (m, (e2, rest2)) = parsed_ok limit (check_page c n) (o, l) rest1 in
    check_page-bounds c n m o l rest2

parse_sort-Known :
    (c : Context) (s : Bytes) → parse_sort c ≡ ok s → any (λ f. f =s s) sort_fields ≡ true
unfolding parse_sort allowed_sort
parse_sort-Known c s e =
    let sort = to_lower (trim_space (query_or c (lit "sort") (lit "id"))) in
    let (known, same) = accepted (allowed_sort sort) sort s _ e in
    subst (λ x. any (λ f. f =s x) sort_fields ≡ true) same known

order_known :
    (s : Bytes) → (s =s lit "asc" || s =s lit "desc") ≡ true → any (λ o. o =s s) orders ≡ true
order_known s h = elim (Bool-cases (s =s lit "asc")) [
  | inl up ↦ rw (=s_sound s (lit "asc") up) refl
  | inr down ↦ rw (=s_sound s (lit "desc") (rw down at h)) refl
]

parse_order-Known :
    (c : Context) (s : Bytes) → parse_order c ≡ ok s → any (λ o. o =s s) orders ≡ true
unfolding parse_order
parse_order-Known c s e =
    let order = to_lower (trim_space (query_or c (lit "order") (lit "asc"))) in
    let (known, same) = accepted (order =s lit "asc" || order =s lit "desc") order s _ e in
    subst (λ x. any (λ o. o =s x) orders ≡ true) same (order_known order known)

-- A query that the handler passes on: a page of 1 to 100 rows, an order by one of the known
-- columns, and one of the two directions.
pub record IsAccepted (q : BookListQuery) : Type 0 where
  pub at_least_one : find_books_min_limit ≤ q.limit
  pub at_most : q.limit ≤ find_books_max_limit
  pub known_sort : any (λ f. f =s q.sort) sort_fields ≡ true
  pub known_order : any (λ o. o =s q.order) orders ≡ true

-- A list query that the handler accepts asks for 1 to 100 rows, sorts by one of the known fields,
-- and has one of the two orders, in the lower case that the allowlist is written in.
pub parse_book_list_query-IsAccepted :
    (c : Context) (q : BookListQuery) → parse_book_list_query c ≡ ok q → IsAccepted q
unfolding parse_book_list_query list_query_of
parse_book_list_query-IsAccepted c q e =
    let made = list_query_of c in
    let (page, (e1, rest1)) =
      parsed_ok (parse_offset_limit c)
        (λ p. parse_owner c >>= λ w. parse_sort c >>= λ x. parse_order c >>= λ y. ok (made p w x y))
        q e in
    let (owner, (e2, rest2)) =
      parsed_ok (parse_owner c)
        (λ w. parse_sort c >>= λ x. parse_order c >>= λ y. ok (made page w x y)) q rest1 in
    let (sort, (e3, rest3)) =
      parsed_ok (parse_sort c) (λ x. parse_order c >>= λ y. ok (made page owner x y)) q rest2 in
    let (order, (e4, rest4)) =
      parsed_ok (parse_order c) (λ y. ok (made page owner sort y)) q rest3 in
    let (low, high) = parse_offset_limit-bounds c page.0 page.1 e1 in
    subst IsAccepted (ok-injective rest4) (record {
      at_least_one = low;
      at_most = high;
      known_sort = parse_sort-Known c sort e3;
      known_order = parse_order-Known c order e4;
    })
