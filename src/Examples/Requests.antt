-- ===== src/Examples/Requests.antt =====
-- Requests to the API over the world in memory.
use golang_rest_api_template.Base.{
  ℕ, ◌≤◌, ◌≡◌, refl, ◌↔◌, true, none, some, List, [], ◌∷◌, arith, if◌then◌else◌, length, Bytes, lit,
  ◌=s◌, trim_space, to_lower, cut_prefix,
}
use golang_rest_api_template.Api.Books.{bind}
use golang_rest_api_template.Middleware.MaxBody.{read_body}
use golang_rest_api_template.Auth.Passwords.{min_bcrypt_cost, bcrypt_cost_for_password_hashing}
use golang_rest_api_template.Middleware.RateLimit.{prune_expired}
use golang_rest_api_template.Middleware.Rbac.{require_role}
use golang_rest_api_template.Auth.Roles.{valid_role}
use golang_rest_api_template.Api.Query.{
  parse_book_list_query, parse_offset_limit, parse_owner, parse_sort, parse_order,
}
use golang_rest_api_template.Repository.ListQuery.{IsListQuery, allowed_sort, list_query}
use golang_rest_api_template.Repository.Persistence.{BookListQuery}
use golang_rest_api_template.Middleware.ApiKey.{constant_time_api_key_equal, api_key_auth}
use golang_rest_api_template.Middleware.JwtAuth.{jwt_auth}
use golang_rest_api_template.Api.Users.{eof, admin_me_handler, UserBinding}
use golang_rest_api_template.Examples.World.{World, memory_driver, platform, key_32, table}
use golang_rest_api_template.Base.Integers.{pos, atoi}
use golang_rest_api_template.Result.{ok, err, pure}
use golang_rest_api_template.Errors.{other}
use golang_rest_api_template.Repository.Users as Store
use golang_rest_api_template.Repository.Driver.{exec}
use golang_rest_api_template.Repository.Tables.{get_user_by_username}
use golang_rest_api_template.Errors.{map_not_found, no_rows}
use golang_rest_api_template.Auth.Passwords.Cost.{bcrypt_cost_for_password_hashing-bounds}
use golang_rest_api_template.Repository.ListQuery.Shape.{list_query-SameShape}
use golang_rest_api_template.Http.{Request, Context}
use golang_rest_api_template.Repository.Books.{book_store}
use golang_rest_api_template.Repository.Users.{user_store}
use golang_rest_api_template.Repository.RefreshTokens.{refresh_store}
use golang_rest_api_template.Auth.Denylist.{noop_denylist}
use golang_rest_api_template.Api.Router.{Wiring, get_admin_me, serve}
use golang_rest_api_template.Api.Router.Access.{Admitted, serve-Admitted}
use golang_rest_api_template.Middleware.ApiKey.Exact.{constant_time_api_key_equal_iff}
use golang_rest_api_template.Middleware.JwtAuth.Verified.{Verified}
use golang_rest_api_template.Middleware.RateLimit.Window.{Arrival, granted, granted_exactly}
use golang_rest_api_template.Service.CacheKey.Injective.{books_list_data_cache_key-injective}
use golang_rest_api_template.Api.Query.Bounds.{IsAccepted, parse_book_list_query-IsAccepted}

abbrev header_of : Bytes → Bytes
header_of name =
    if name =s lit "X-API-Key"
    then key_32
    else if name =s lit "Authorization"
    then lit "Bearer t"
    else []

abbrev request : Request
request = record {
  method = lit "GET";
  path = lit "/api/v1/admin/me";
  header = header_of;
  id_param = lit "3";
  query = λ name. none;
  body = [];
  content_length = pos 0;
  client_ip = lit "10.0.0.1";
}

abbrev pub context : Context
context = record {
  request = request;
  username = none;
  user_id = none;
  role = none;
  jti = none;
  access_exp = none;
  request_id = none;
  body_cap = none;
  headers = [];
}

abbrev pub start : World
start = record {
  tables = record { books = table [] 1; users = table [] 1; tokens = table [] 1 };
  clock = 1000;
  draws = 40;
  jwt_key = key_32;
  api_key = key_32;
}

abbrev pub app : Wiring World
app = record {
  platform = platform;
  json = record { marshal = λ bs. ok []; unmarshal = λ s. err (other (lit "not stored")) };
  book_store = book_store memory_driver (λ q. pure []);
  user_store = user_store memory_driver;
  refresh_store = some (refresh_store memory_driver);
  redis = none;
  publisher = none;
  denylist = noop_denylist;
  api_secret = record { get = λ w. w.api_key; put = λ k w. record w { api_key = k } };
  book_binding = record {
    create_book = λ s. err (lit "EOF");
    replace_book = λ s. err (lit "EOF");
    patch_book = λ s. err (lit "EOF");
  };
  user_binding = record {
    login_user = λ s. err (lit "EOF");
    refresh_request = λ s. err (lit "EOF");
    logout_request = λ c. eof;
  };
}

admin_me_status : (serve app get_admin_me context start).0.status ≡ 200
unfolding serve api_key_auth constant_time_api_key_equal jwt_auth cut_prefix valid_role require_role
    admin_me_handler
admin_me_status = refl

serve-Admitted_example : Admitted app get_admin_me context start
serve-Admitted_example =
    serve-Admitted app context start (omega arith) (omega arith) get_admin_me (λ e. cc e)
      (rw admin_me_status (omega arith))

constant_time_api_key_equal_iff_example :
    (constant_time_api_key_equal (lit "k") key_32 ≡ true) ↔ (lit "k" ≡ key_32)
constant_time_api_key_equal_iff_example =
    constant_time_api_key_equal_iff (lit "k") key_32 (omega arith) (omega arith) (omega arith)

abbrev arrival : Bytes → ℕ → Arrival
arrival client at = record { client = client; at = at }

abbrev later_arrivals : List Arrival
later_arrivals = arrival (lit "b") 11 ∷ arrival (lit "a") 12 ∷ arrival (lit "a") 13 ∷ []

granted_exactly_example : granted 2 60 (lit "a") (arrival (lit "a") 10 ∷ later_arrivals) [] ≡ 2
unfolding prune_expired
granted_exactly_example =
    granted_exactly 2 60 (arrival (lit "a") 10) later_arrivals [] refl
      (omega arith, (omega arith, (omega arith, tt)))

abbrev first_page : BookListQuery
first_page = record {
  offset = 0;
  limit = 10;
  title_like = lit "a_b";
  author_like = [];
  owner_id = none;
  sort = lit "created_at";
  order = lit "desc";
}

abbrev generation : ℕ
generation = 3

first_page-IsListQuery : IsListQuery first_page
first_page-IsListQuery = record {
  known_sort = refl;
  known_order = refl;
  title_bytes = (omega arith, (omega arith, (omega arith, tt)));
  author_bytes = tt;
}

books_list_data_cache_key-injective_example : (generation ≡ 3) × (first_page ≡ first_page)
books_list_data_cache_key-injective_example =
    books_list_data_cache_key-injective 3 3 first_page first_page first_page-IsListQuery
      first_page-IsListQuery refl

abbrev default_query : BookListQuery
default_query = record {
  offset = 0;
  limit = 10;
  title_like = [];
  author_like = [];
  owner_id = none;
  sort = lit "id";
  order = lit "asc";
}

default_query_parses : parse_book_list_query context ≡ ok default_query
unfolding parse_book_list_query trim_space to_lower atoi parse_offset_limit parse_owner parse_sort
    parse_order allowed_sort
default_query_parses = refl

parse_book_list_query-IsAccepted_example : IsAccepted default_query
parse_book_list_query-IsAccepted_example =
    parse_book_list_query-IsAccepted context default_query default_query_parses

-- Another client's query of the same shape.
abbrev other_page : BookListQuery
other_page = record first_page { title_like = lit "' OR 1"; limit = 20 }

list_query-SameShape_example :
    ((list_query first_page).text ≡ (list_query other_page).text)
    × (length (list_query first_page).args ≡ length (list_query other_page).args)
list_query-SameShape_example = list_query-SameShape first_page other_page (record {
  title = refl;
  author = refl;
  owner = refl;
  column = refl;
  direction = refl;
  skips = refl;
})

bcrypt_cost_for_password_hashing-bounds_example :
    (min_bcrypt_cost ≤ bcrypt_cost_for_password_hashing platform)
    × (bcrypt_cost_for_password_hashing platform ≤ 31)
bcrypt_cost_for_password_hashing-bounds_example = bcrypt_cost_for_password_hashing-bounds platform

abbrev credentials : UserBinding
credentials = record {
  login_user = λ s. ok (lit "eve", lit "pw");
  refresh_request = λ s. err (lit "EOF");
  logout_request = λ c. eof;
}

body_bound : bind credentials.login_user context ≡ ok (lit "eve", lit "pw")
unfolding read_body
body_bound = refl

nobody : (Store.find_by_username memory_driver (lit "eve") start).0 ≡ err (map_not_found no_rows)
unfolding Store.find_by_username exec get_user_by_username
nobody = refl
