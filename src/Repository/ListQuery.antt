-- ===== src/Repository/ListQuery.antt =====
-- `List` of pkg/repository/book_sqlc.go: the text and the arguments of the query for a page of
-- books. What the server answers to a text and its arguments is a parameter.
pub mod Shape
pub mod Like
use golang_rest_api_template.Base.{
  ℕ, ◌+◌, ◌≡◌, Bool, true, ◌||◌, Option, none, some, List, [], ◌∷◌, ◌++◌, ◌==◌, if◌then◌else◌,
  length, any, All, Bytes, lit, ◌=s◌, is_empty, trim_space, to_lower, format_uint, IsByte,
}
use golang_rest_api_template.Models.{Book}
use golang_rest_api_template.Errors.{Cause, Error, cause}
use golang_rest_api_template.Result.{Io, map_err}
use golang_rest_api_template.Repository.Persistence.{BookListQuery}
use golang_rest_api_template.Repository.Books.{to_int64}

-- A value that is sent beside the text.
pub data Argument : Type 0 where
  text_arg : Bytes → Argument
  int_arg : ℕ → Argument

abbrev pub sort_fields : List Bytes
sort_fields =
    lit "id"
    ∷ lit "title"
    ∷ lit "author"
    ∷ lit "created_at"
    ∷ lit "updated_at"
    ∷ lit "owner_id"
    ∷ []

-- `BookListSortFields[sort]`.
unfoldable pub allowed_sort : Bytes → Bool
allowed_sort sort = any (λ f. f =s sort) sort_fields

abbrev pub orders : List Bytes
orders = lit "asc" ∷ lit "desc" ∷ []

-- What the API sends on: a sort field and an order of the two lists, and texts of bytes.
pub record IsListQuery (q : BookListQuery) : Type 0 where
  pub known_sort : any (λ f. f =s q.sort) sort_fields ≡ true
  pub known_order : any (λ o. o =s q.order) orders ≡ true
  pub title_bytes : All IsByte q.title_like
  pub author_bytes : All IsByte q.author_like

-- `strings.NewReplacer` of the three characters that LIKE treats specially.
unfoldable escape_like_pattern : Bytes → Bytes
escape_like_pattern [] = []
escape_like_pattern (b ∷ s) =
    let rest = escape_like_pattern s in
    if b == 92 || (b == 37 || b == 95) then 92 ∷ b ∷ rest else b ∷ rest

unfoldable pub like_argument : Bytes → Bytes
unfolding to_lower escape_like_pattern
like_argument s = lit "%" ++ (to_lower (escape_like_pattern s) ++ lit "%")

-- The conditions and the arguments that are collected so far.
pub record Clauses : Type 0 where
  pub conds : List Bytes
  pub args : List Argument

abbrev add_cond : Argument → (Bytes → Bytes) → Clauses → Clauses
add_cond arg cond c = record {
  conds = c.conds ++ cond (lit "$" ++ format_uint (length c.args + 1)) ∷ [];
  args = c.args ++ arg ∷ [];
}

abbrev like_cond : Bytes → Bytes → Bytes
like_cond column place =
    lit "LOWER(" ++ (column ++ (lit ") LIKE " ++ (place ++ lit " ESCAPE '\\'")))

unfoldable add_like : Bytes → Bytes → Clauses → Clauses
add_like column s c =
    if is_empty s then c else add_cond (text_arg (like_argument s)) (like_cond column) c

unfoldable add_owner : Option ℕ → Clauses → Clauses
unfolding to_int64
add_owner none c = c
add_owner (some id) c = add_cond (int_arg (to_int64 id)) (λ place. lit "owner_id = " ++ place) c

unfoldable pub filters : BookListQuery → Clauses
unfolding add_like add_owner
filters q = add_owner q.owner_id (
    add_like (lit "author") q.author_like
      (add_like (lit "title") q.title_like (record { conds = []; args = [] })))

-- `strings.Join`.
abbrev pub join : Bytes → List Bytes → Bytes
join sep [] = []
join sep (x ∷ []) = x
join sep (x ∷ y ∷ r) = x ++ (sep ++ join sep (y ∷ r))

abbrev where_text : List Bytes → Bytes
where_text [] = []
where_text (x ∷ r) = lit " WHERE " ++ join (lit " AND ") (x ∷ r)

abbrev pub sort_column : Bytes → Bytes
sort_column sort = let s = to_lower (trim_space sort) in if allowed_sort s then s else lit "id"

abbrev pub is_desc : Bytes → Bool
is_desc order = to_lower (trim_space order) =s lit "desc"

-- `bookListOrderBy`: the column and the direction, in a fixed text.
abbrev order_clause : Bytes → Bool → Bytes
order_clause column desc = column ++ (if desc then lit " DESC" else lit " ASC")

abbrev tie_break : Bytes → Bytes
tie_break column = if column =s lit "id" then [] else lit ", id ASC"

unfoldable order_by : BookListQuery → Bytes
unfolding to_lower trim_space allowed_sort
order_by q =
    let column = sort_column q.sort in
    lit " ORDER BY " ++ (order_clause column (is_desc q.order) ++ tie_break column)

-- The text and the arguments as they grow at the end of `List`.
pub record Query : Type 0 where
  pub text : Bytes
  pub args : List Argument

abbrev add_number : Bytes → ℕ → Query → Query
add_number keyword n c = record {
  text = c.text ++ (keyword ++ (lit "$" ++ format_uint (length c.args + 1)));
  args = c.args ++ int_arg n ∷ [];
}

-- A limit is at least 0, so it is always sent.
unfoldable pub list_query : BookListQuery → Query
unfolding filters order_by
list_query q =
    let c = filters q in
    let base : Query = record {
      text =
          lit "SELECT id, owner_id, title, author, created_at, updated_at FROM books"
          ++ (where_text c.conds ++ order_by q);
      args = c.args;
    } in
    let limited = add_number (lit " LIMIT ") q.limit base in
    if q.offset == 0 then limited else add_number (lit " OFFSET ") q.offset limited

module _ {W : Type 0} (query : Bytes → List Argument → Io W Cause (List Book)) where
  unfoldable pub list : BookListQuery → Io W Error (List Book)
  unfolding list_query
  list q = map_err cause (query (list_query q).text (list_query q).args)
