-- ===== src/Repository/ListQuery/Shape.antt =====
-- pkg/repository/book_sqlc.go: the text of the list query against what the client sends.
use golang_rest_api_template.Repository.Books.{to_int64}
use golang_rest_api_template.Base.{
  ℕ, ◌≡◌, refl, inl, inr, Option, none, some, [], ◌∷◌, ◌++◌, ◌==◌, Bool-cases, length,
  length-append, Bytes, lit, is_empty, is_some,
}
use golang_rest_api_template.Repository.Persistence.{BookListQuery}
use golang_rest_api_template.Repository.ListQuery.{
  Clauses, Query, filters, list_query, add_like, add_owner, order_by, add_cond, Argument, int_arg,
  text_arg, sort_column, is_desc, like_argument, where_text, add_number, like_cond,
}

-- The same conditions, and as many arguments.
record Alike (c d : Clauses) : Type 0 where
  same_conds : c.conds ≡ d.conds
  same_count : length c.args ≡ length d.args

add_cond-Alike :
    (a b : Argument) (cond : Bytes → Bytes) (c d : Clauses)
    → Alike c d
    → Alike (add_cond a cond c) (add_cond b cond d)
add_cond-Alike a b cond c d h = record {
  same_conds = rw (h.same_conds, h.same_count) refl;
  same_count = rw (length-append c.args (a ∷ []), length-append d.args (b ∷ []), h.same_count) refl;
}

add_like-Alike :
    (column s t : Bytes) (c d : Clauses)
    → is_empty s ≡ is_empty t
    → Alike c d
    → Alike (add_like column s c) (add_like column t d)
unfolding add_like
add_like-Alike column s t c d e h = elim (Bool-cases (is_empty t)) [
  | inl none_given ↦ rw (e, none_given) h
  | inr given ↦
      rw (e, given)
        (add_cond-Alike (text_arg (like_argument s)) (text_arg (like_argument t)) (like_cond column)
          c d h)
]

add_owner-Alike :
    (o o' : Option ℕ) (c d : Clauses)
    → is_some o ≡ is_some o'
    → Alike c d
    → Alike (add_owner o c) (add_owner o' d)
unfolding add_owner
add_owner-Alike none none c d e h = h
add_owner-Alike (some x) (some y) c d e h =
    add_cond-Alike (int_arg (to_int64 x)) (int_arg (to_int64 y))
      (λ place. lit "owner_id = " ++ place) c d h
add_owner-Alike none (some y) c d e h = absurd (cc e)
add_owner-Alike (some x) none c d e h = absurd (cc e)

-- What the text of the query is made of: which filters there are, the allowlisted order, and
-- whether rows are skipped.
pub record SameShape (q q' : BookListQuery) : Type 0 where
  pub title : is_empty q.title_like ≡ is_empty q'.title_like
  pub author : is_empty q.author_like ≡ is_empty q'.author_like
  pub owner : is_some q.owner_id ≡ is_some q'.owner_id
  pub column : sort_column q.sort ≡ sort_column q'.sort
  pub direction : is_desc q.order ≡ is_desc q'.order
  pub skips : (q.offset == 0) ≡ (q'.offset == 0)

filters-Alike : (q q' : BookListQuery) → SameShape q q' → Alike (filters q) (filters q')
unfolding filters
filters-Alike q q' h = add_owner-Alike q.owner_id q'.owner_id _ _ h.owner (
    add_like-Alike (lit "author") q.author_like q'.author_like _ _ h.author (
      add_like-Alike (lit "title") q.title_like q'.title_like _ _ h.title
        (record { same_conds = refl; same_count = refl })))

order_by-same : (q q' : BookListQuery) → SameShape q q' → order_by q ≡ order_by q'
unfolding order_by
order_by-same q q' h = rw (h.column, h.direction) refl

-- The query before its paging.
abbrev unpaged : BookListQuery → Query
unpaged q = record {
  text =
      lit "SELECT id, owner_id, title, author, created_at, updated_at FROM books"
      ++ (where_text (filters q).conds ++ order_by q);
  args = (filters q).args;
}

-- The same text, and as many arguments.
record AlikeQuery (c d : Query) : Type 0 where
  same_text : c.text ≡ d.text
  same_count : length c.args ≡ length d.args

unpaged-Alike : (q q' : BookListQuery) → SameShape q q' → AlikeQuery (unpaged q) (unpaged q')
unpaged-Alike q q' h =
    let alike = filters-Alike q q' h in
    record {
      same_text = rw (alike.same_conds, order_by-same q q' h) refl;
      same_count = alike.same_count;
    }

add_number-Alike :
    (keyword : Bytes) (n m : ℕ) (c d : Query)
    → AlikeQuery c d
    → AlikeQuery (add_number keyword n c) (add_number keyword m d)
add_number-Alike keyword n m c d h = record {
  same_text = rw (h.same_text, h.same_count) refl;
  same_count =
      rw
        (length-append c.args (int_arg n ∷ []), length-append d.args (int_arg m ∷ []), h.same_count)
        refl;
}

-- The text of the list query and the number of its arguments are the same for two queries that
-- have the same filters present, the same column and direction after the allowlist, and agree on
-- whether rows are skipped.
pub list_query-SameShape :
    (q q' : BookListQuery)
    → SameShape q q'
    → ((list_query q).text ≡ (list_query q').text)
      × (length (list_query q).args ≡ length (list_query q').args)
unfolding list_query
list_query-SameShape q q' h =
    let limited = add_number-Alike (lit " LIMIT ") q.limit q'.limit _ _ (unpaged-Alike q q' h) in
    let skipped = add_number-Alike (lit " OFFSET ") q.offset q'.offset _ _ limited in
    elim (Bool-cases (q'.offset == 0)) [
      | inl first ↦ rw (h.skips, first) (limited.same_text, limited.same_count)
      | inr later ↦ rw (h.skips, later) (skipped.same_text, skipped.same_count)
    ]
