-- ===== src/Examples/Library.antt =====
-- The books in the world in memory.
use golang_rest_api_template.Api.Query.{context_user_id, parse_id_param}
use golang_rest_api_template.Base.{
  ◌≡◌, refl, none, some, List, [], ◌∷◌, arith, lit, parse_uint, read_digits,
}
use golang_rest_api_template.Repository.Tables.Books.{book_of}
use golang_rest_api_template.Repository.Persistence.{BookListQuery}
use golang_rest_api_template.Examples.World.{
  World, memory_driver, memory_laws, platform, platform-Frame, key_32, table,
}
use golang_rest_api_template.Service.Books.Ownership
use golang_rest_api_template.Base.Integers.{pos}
use golang_rest_api_template.Http.{Request, Context, write_error}
use golang_rest_api_template.Api.Books.{BookBinding}
use golang_rest_api_template.Api.Books.Forbidden.{
  Foreign, deletes, change_handler, change_handler-Foreign,
}
use golang_rest_api_template.Repository.Books.{first_by_id, book_store, to_int64}
use golang_rest_api_template.Repository.Tables.{get_book}
use golang_rest_api_template.Repository.Driver.{exec}
use golang_rest_api_template.Models.{Book}
use golang_rest_api_template.Errors.{other, Error}
use golang_rest_api_template.Result.{ok, err, pure, Io}
use golang_rest_api_template.Service.Books.{BooksJson}
use golang_rest_api_template.Service.Books.Ownership.{deletes, after_mutation, mutation-keeps}

abbrev novel : Book
novel = record {
  id = 3;
  owner_id = 7;
  title = lit "a";
  author = lit "b";
  created_at = 0;
  updated_at = 0;
}

abbrev start : World
start = record {
  tables = record { books = table (novel ∷ []) 4; users = table [] 1; tokens = table [] 1 };
  clock = 1000;
  draws = 40;
  jwt_key = key_32;
  api_key = key_32;
}

abbrev json : BooksJson
json = record { marshal = λ bs. ok []; unmarshal = λ s. err (other (lit "not stored")) }

abbrev no_list : BookListQuery → Io World Error (List Book)
no_list q = pure []

mutation-keeps_example :
    book_of 3
      (after_mutation platform json memory_driver no_list none none 8
        (Ownership.deletes 3)
        start).tables
    ≡ some novel
mutation-keeps_example =
    mutation-keeps platform json memory_driver no_list none none memory_laws platform-Frame tt tt 8
      3 novel (λ e. omega arith) (Ownership.deletes 3) start refl

abbrev request : Request
request = record {
  method = lit "DELETE";
  path = lit "/api/v1/books/3";
  header = λ name. [];
  id_param = lit "3";
  query = λ name. none;
  body = [];
  content_length = pos 0;
  client_ip = lit "10.0.0.1";
}

-- The user 8 asks for the book of the user 7.
abbrev context : Context
context = record {
  request = request;
  username = some (lit "bob");
  user_id = some 8;
  role = some (lit "user");
  jti = none;
  access_exp = none;
  request_id = none;
  body_cap = none;
  headers = [];
}

abbrev no_body : BookBinding
no_body = record {
  create_book = λ s. err (lit "EOF");
  replace_book = λ s. err (lit "EOF");
  patch_book = λ s. err (lit "EOF");
}

novel_found : (first_by_id memory_driver 3 start).0 ≡ ok novel
unfolding first_by_id exec get_book to_int64
novel_found = refl

acting : context_user_id context ≡ some 8
unfolding context_user_id
acting = refl

asked : parse_id_param context ≡ ok 3
unfolding parse_id_param parse_uint read_digits
asked = refl

foreign : Foreign platform json (book_store memory_driver no_list) none none no_body context start
foreign = record {
  actor_id = 8;
  id = 3;
  book = novel;
  acting = acting;
  asked = asked;
  found = novel_found;
  other_owner = refl;
}

change_handler-Foreign_example :
    change_handler platform json
      (book_store memory_driver no_list)
      none
      none
      no_body
      {c = context}
      deletes
      context
      start
    ≡ (write_error context 403 (lit "forbidden"), (first_by_id memory_driver foreign.id start).1)
change_handler-Foreign_example =
    change_handler-Foreign platform json (book_store memory_driver no_list) none none no_body
      context deletes start foreign
