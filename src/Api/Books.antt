-- ===== src/Api/Books.antt =====
-- pkg/api/books.go: the handlers of the book routes. gin's JSON binding, which reads the body and
-- requires the fields, is a parameter.
pub mod Forbidden
use golang_rest_api_template.Base.{ℕ, Option, none, some, if◌then◌else◌, Bytes, lit}
use golang_rest_api_template.Result.{Result, ok, err}
use golang_rest_api_template.Errors.{
  Error, Cause, is, is_not_found, list_books_marshal, list_books_redis, list_books_unmarshal,
  book_forbidden,
}
use golang_rest_api_template.Platform.{Platform}
use golang_rest_api_template.Cache.{Cache}
use golang_rest_api_template.Http.{
  Context, Response, Handler, write_error, ok_response, created_response, respond, empty, text,
  book, books,
}
use golang_rest_api_template.Middleware.MaxBody.{read_body}
use golang_rest_api_template.Repository.Persistence.{BookPersistence}
use golang_rest_api_template.Service.Events.{Publisher}
use golang_rest_api_template.Service.Books
use golang_rest_api_template.Service.Books.{
  BooksJson, list_books, get_book, replace_book, patch_book,
}
use golang_rest_api_template.Api.Query.{
  Parsed, parse_id_param, parse_book_list_query, context_user_id,
}

-- The text of a binding error is an argument of the response.
pub record BookBinding : Type 0 where
  pub create_book : Bytes → Result Bytes (Bytes × Bytes)
  pub replace_book : Bytes → Result Bytes (Bytes × Bytes)
  pub patch_book : Bytes → Result Bytes (Option Bytes × Option Bytes)

abbrev text_of : Cause → Bytes
text_of c = lit "http: request body too large"

-- `c.ShouldBindJSON(&input)` over the body that the cap lets through.
abbrev pub bind : {A : Type 0} → (Bytes → Result Bytes A) → Context → Result Bytes A
bind decode c = elim (read_body c) [ ok body ↦ decode body | err e ↦ err (text_of e) ]

abbrev bad_body : Context → Bytes → Response
bad_body c message = write_error c 400 message

-- The errors of a handler of one book, in the order of its tests.
abbrev pub book_error : Context → Bytes → Error → Response
book_error c failed e =
    if is_not_found e
    then write_error c 404 (lit "book not found")
    else if is e book_forbidden
    then write_error c 403 (lit "forbidden")
    else write_error c 500 failed

abbrev list_error : Error → Bytes
list_error e =
    if is e list_books_marshal
    then lit "Failed to marshal data"
    else if is e list_books_redis
    then lit "Failed to set cache"
    else if is e list_books_unmarshal
    then lit "Failed to unmarshal cached data"
    else lit "Failed to list books"

module _ {W : Type 0} (p : Platform W) (json : BooksJson) (store : BookPersistence W)
    (redis : Option (Cache W)) (publisher : Option (Publisher W)) (binding : BookBinding) where
  abbrev answer :
      {A : Type 0} → (Error → Response) → (A → Response) → Result Error A × W → Response × W
  answer failed done (ok a, w) = (done a, w)
  answer failed done (err e, w) = (failed e, w)

  -- `if !ok { return }` after a parser that has written its response.
  abbrev parsed : {A : Type 0} → Parsed A → (A → W → Response × W) → W → Response × W
  parsed (ok a) k w = k a w
  parsed (err r) k w = (r, w)

  abbrev bound : {A : Type 0} → Context → Result Bytes A → (A → W → Response × W) → W → Response × W
  bound c (ok a) k w = k a w
  bound c (err message) k w = (bad_body c message, w)

  abbrev with_user : Context → Option ℕ → (ℕ → W → Response × W) → W → Response × W
  with_user c none k w = (write_error c 401 (lit "Unauthorized"), w)
  with_user c (some id) k w = k id w

  unfoldable pub healthcheck : Handler W
  healthcheck c w = (ok_response c (text (lit "ok")), w)

  unfoldable pub find_books : Handler W
  unfolding parse_book_list_query
  find_books c = parsed (parse_book_list_query c) λ q w.
      answer (λ e. write_error c 500 (list_error e)) (λ bs. ok_response c (books bs))
        (list_books p json store redis publisher q w)

  unfoldable pub create_book : Handler W
  unfolding context_user_id read_body
  create_book c = with_user c (context_user_id c) λ owner_id.
      bound c (bind binding.create_book c) λ (title, author) w.
        answer (λ e. write_error c 500 (lit "Failed to create book"))
          (λ b. created_response c (book b))
          (Books.create_book p json store redis publisher owner_id title author w)

  unfoldable pub find_book : Handler W
  unfolding parse_id_param
  find_book c = parsed (parse_id_param c) λ id w.
      answer
        (λ e.
          if is_not_found e
          then write_error c 404 (lit "book not found")
          else write_error c 500 (lit "Failed to load book"))
        (λ b. ok_response c (book b)) (get_book p json store redis publisher id w)

  unfoldable pub update_book : Handler W
  unfolding context_user_id parse_id_param read_body
  update_book c = with_user c (context_user_id c) λ actor_id. parsed (parse_id_param c) λ id.
      bound c (bind binding.replace_book c) λ (title, author) w.
        answer (book_error c (lit "Failed to update book")) (λ b. ok_response c (book b))
          (replace_book p json store redis publisher actor_id id title author w)

  abbrev patched : Context → ℕ → ℕ → Option Bytes → Option Bytes → W → Response × W
  patched c actor_id id title author w =
      answer (book_error c (lit "Failed to update book")) (λ b. ok_response c (book b))
        (patch_book p json store redis publisher actor_id id title author w)

  patch_given : Context → ℕ → ℕ → Option Bytes → Option Bytes → W → Response × W
  patch_given c actor_id id none none w =
      (write_error c 400 (lit "at least one of title or author is required"), w)
  patch_given c actor_id id none (some author) w = patched c actor_id id none (some author) w
  patch_given c actor_id id (some title) author w = patched c actor_id id (some title) author w

  unfoldable pub patch_book_handler : Handler W
  unfolding context_user_id parse_id_param read_body patch_given
  patch_book_handler c = with_user c (context_user_id c) λ actor_id. parsed (parse_id_param c) λ id.
      bound c (bind binding.patch_book c) λ (title, author). patch_given c actor_id id title author

  unfoldable pub delete_book : Handler W
  unfolding context_user_id parse_id_param
  delete_book c = with_user c (context_user_id c) λ actor_id. parsed (parse_id_param c) λ id w.
      answer (book_error c (lit "Failed to delete book")) (λ _. respond c 204 empty)
        (Books.delete_book p json store redis publisher actor_id id w)
