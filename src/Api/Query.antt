-- ===== src/Api/Query.antt =====
-- pkg/api/books.go: what the handlers parse from the path and the query string.
pub mod Bounds
use golang_rest_api_template.Base.{
  ℕ, ◌||◌, Option, none, some, [], ltb, ◌==◌, if◌then◌else◌, Bytes, lit, ◌=s◌, is_empty, trim_space,
  to_lower, parse_uint,
}
use golang_rest_api_template.Base.Integers.{ℤ, pos, negsuc, atoi}
use golang_rest_api_template.Result.{Result, ok, err}
use golang_rest_api_template.Http.{Context, Response, write_error}
use golang_rest_api_template.Repository.Persistence.{BookListQuery}
use golang_rest_api_template.Repository.ListQuery.{allowed_sort}

abbrev pub find_books_min_limit : ℕ
find_books_min_limit = 1

abbrev pub find_books_max_limit : ℕ
find_books_max_limit = 100

-- A value, or the error response that the parser has written.
abbrev pub Parsed : Type 0 → Type 0
Parsed A = Result Response A

infixl 5 ◌>>=◌
abbrev ◌>>=◌ : {A B : Type 0} → Parsed A → (A → Parsed B) → Parsed B
ok a >>= f = f a
err r >>= f = err r

abbrev bad : {A : Type 0} → Context → Bytes → Parsed A
bad c message = err (write_error c 400 message)

abbrev require : {A : Type 0} → Context → Bytes → Option A → Parsed A
require c message none = bad c message
require c message (some a) = ok a

-- `c.DefaultQuery` and `c.Query`.
abbrev pub query_or : Context → Bytes → Bytes → Bytes
query_or c name default = elim (c.request.query name) [ none ↦ default | some v ↦ v ]

unfoldable pub parse_id_param : Context → Parsed ℕ
parse_id_param c = require c (lit "Invalid id format") (parse_uint c.request.id_param)

unfoldable check_offset : Context → ℤ → Parsed ℕ
check_offset c (negsuc n) = bad c (lit "offset must be >= 0")
check_offset c (pos n) = ok n

unfoldable check_limit : Context → ℤ → Parsed ℕ
check_limit c (negsuc n) = bad c (lit "limit must be at least 1")
check_limit c (pos n) =
    if ltb n find_books_min_limit
    then bad c (lit "limit must be at least 1")
    else ok (if ltb find_books_max_limit n then find_books_max_limit else n)

unfoldable parse_int : Context → Bytes → Bytes → Bytes → Parsed ℤ
unfolding trim_space atoi
parse_int c name default message = require c message (atoi (trim_space (query_or c name default)))

-- The two checks of the numbers.
unfoldable check_page : Context → ℤ → ℤ → Parsed (ℕ × ℕ)
unfolding check_offset check_limit
check_page c o l = do offset ← check_offset c o; limit ← check_limit c l; ok (offset, limit)

unfoldable pub parse_offset_limit : Context → Parsed (ℕ × ℕ)
unfolding check_page parse_int
parse_offset_limit c = do
  o ← parse_int c (lit "offset") (lit "0") (lit "Invalid offset format")
  l ← parse_int c (lit "limit") (lit "10") (lit "Invalid limit format")
  check_page c o l

unfoldable pub parse_owner : Context → Parsed (Option ℕ)
unfolding trim_space parse_uint
parse_owner c =
    let raw = trim_space (query_or c (lit "owner_id") []) in
    if is_empty raw then ok none else elim (parse_uint raw) [
      | none ↦ bad c (lit "Invalid owner_id format")
      | some id ↦ ok (some id)
    ]

unfoldable pub parse_sort : Context → Parsed Bytes
unfolding trim_space to_lower allowed_sort
parse_sort c =
    let sort = to_lower (trim_space (query_or c (lit "sort") (lit "id"))) in
    if allowed_sort sort then ok sort else bad c (lit "Invalid sort field")

unfoldable pub parse_order : Context → Parsed Bytes
unfolding trim_space to_lower
parse_order c =
    let order = to_lower (trim_space (query_or c (lit "order") (lit "asc"))) in
    if order =s lit "asc" || order =s lit "desc"
    then ok order
    else bad c (lit "Invalid order; must be asc or desc")

unfoldable list_query_of : Context → ℕ × ℕ → Option ℕ → (sort order : Bytes) → BookListQuery
unfolding trim_space
list_query_of c page owner_id sort order = record {
  offset = page.0;
  limit = page.1;
  title_like = trim_space (query_or c (lit "title_like") []);
  author_like = trim_space (query_or c (lit "author_like") []);
  owner_id = owner_id;
  sort = sort;
  order = order;
}

unfoldable pub parse_book_list_query : Context → Parsed BookListQuery
unfolding parse_offset_limit parse_owner parse_sort parse_order list_query_of
parse_book_list_query c = do
  page ← parse_offset_limit c
  owner_id ← parse_owner c
  sort ← parse_sort c
  order ← parse_order c
  ok (list_query_of c page owner_id sort order)

-- `contextUserID`: the user that `JWTAuth` has set, if it is not 0.
unfoldable pub context_user_id : Context → Option ℕ
context_user_id c = elim c.user_id [ none ↦ none | some id ↦ if id == 0 then none else some id ]
