-- ===== src/Examples/Cached.antt =====
-- The list cache over a map in memory.
use golang_rest_api_template.Base.{
  ℕ, suc, ◌≤◌, ◌≡◌, refl, ap, ◌∙◌, ◌≢◌, ◌⊎◌, inl, inr, true, Option, none, some, List, [], ◌∷◌,
  arith, if◌then◌else◌, Bool-cases, Bytes, lit, ◌=s◌, =s_sound, =s_refl, format_uint, hex_encode,
  read_digits, digits_fuel,
}
use golang_rest_api_template.Base.Integers.{ℤ, pos, atoi}
use golang_rest_api_template.Cache.{Cache}
use golang_rest_api_template.Errors.{Cause, redis_nil, other, Error, sentinel, not_found}
use golang_rest_api_template.Models.{Book}
use golang_rest_api_template.Platform.{Platform, malformed}
use golang_rest_api_template.Result.{Result, ok, err, Io}
use golang_rest_api_template.Repository.Persistence.{BookPersistence, BookListQuery}
use golang_rest_api_template.Repository.ListQuery.{IsListQuery}
use golang_rest_api_template.Service.Books.{
  BooksJson, list_books, load_page, create_book, cache_generation,
}
use golang_rest_api_template.Service.Books.CacheLaws.{CacheMap, LeavesCache, reading}
use golang_rest_api_template.Service.Books.Fresh.{
  generation, Counts, after_moves, commit_then_list_loads,
}
use golang_rest_api_template.Service.Books.Mutations.{Mutation, creating, mutate, succeeded}
use golang_rest_api_template.Service.CacheKey.{books_list_data_cache_key, books_list_cache_gen_key}

abbrev Memory : Type 0
Memory = Bytes → Option Bytes

abbrev write : Bytes → Bytes → Memory → Memory
write k v w j = if j =s k then some v else w j

write_other : (k v : Bytes) (w : Memory) (j : Bytes) → j ≢ k → write k v w j ≡ w j
write_other k v w j ne = elim (Bool-cases (j =s k)) [
  | inl same ↦ absurd (ne (=s_sound j k same))
  | inr e ↦ rw e refl
]

abbrev reply : Option Bytes → Result Cause Bytes
reply none = err redis_nil
reply (some v) = ok v

-- Counts to two, and fails from then on.
abbrev counted : Option Bytes → Option ℕ
counted none = some 1
counted (some s) = if s =s lit "1" then some 2 else none

abbrev bump : Bytes → Option ℕ → Memory → Result Cause ℤ × Memory
bump k none w = (err (other (lit "full")), w)
bump k (some n) w = (ok (pos n), write k (format_uint n) w)

abbrev memory_cache : Cache Memory
memory_cache = record {
  get = λ k w. (reply (w k), w);
  set = λ k v n w. (ok tt, write k v w);
  incr = λ k w. bump k (counted (w k)) w;
  eval = λ script k n w. (ok (pos 0), w);
}

bump_other : (k : Bytes) (o : Option ℕ) (w : Memory) (j : Bytes) → j ≢ k → (bump k o w).1 j ≡ w j
bump_other k none w j ne = refl
bump_other k (some n) w j ne = write_other k (format_uint n) w j ne

abbrev number : Result Cause ℤ → ℕ
number (ok (pos n)) = n
number _ = 0

-- The count before, and what a bump of it answers and stores.
bump_counts :
    (k : Bytes) (w : Memory) (o : Option Bytes)
    → w k ≡ o
    → (reading (w k) ≤ reading ((bump k (counted o) w).1 k))
      × ((i : ℕ)
          → (bump k (counted o) w).0 ≡ ok (pos (suc i))
          → (reading (w k) ≡ i) × (reading ((bump k (counted o) w).1 k) ≡ suc i))
unfolding atoi read_digits format_uint digits_fuel
bump_counts k w none e =
    rw (e, =s_refl k) (omega arith, λ i h. let two = ap number h in (omega arith, omega arith))
bump_counts k w (some s) e = elim (Bool-cases (s =s lit "1")) [
  | inl one ↦ rw one (
      let once = =s_sound s (lit "1") one in
      rw (e, once, =s_refl k)
        (omega arith, λ i h. let two = ap number h in (omega arith, omega arith)))
  | inr more ↦ rw more (omega arith, λ i h. absurd (cc))
]

memory_map : CacheMap memory_cache
memory_map = record {
  contents = λ w. w;
  get_hit = λ k v w e. rw e refl;
  get_miss = λ k w e. rw e refl;
  get_keeps = λ k w j. refl;
  set_other = λ k v n w j ne. write_other k v w j ne;
  incr_other = λ k w j ne. bump_other k (counted (w k)) w j ne;
  incr_up = λ k w. (bump_counts k w (w k) refl).0;
  incr_ok = λ k w. (bump_counts k w (w k) refl).1;
}

abbrev no_platform : Platform Memory
no_platform = record {
  time_now = λ w. (0, w);
  rand_read = λ n w. (ok [], w);
  getenv = λ name. [];
  parse_duration = λ s. malformed;
  sha256 = λ s. s;
  base64_raw_url = λ s. s;
  bcrypt_generate = λ password cost w. (ok password, w);
  bcrypt_compare = λ hash password. true;
  jwt_signing_key = record { get = λ w. []; put = λ k w. w };
  jwt_sign = λ key claims. ok [];
  jwt_parse = λ key_of token w. (err (other []), w);
}

abbrev empty_json : BooksJson
empty_json = record { marshal = λ page. ok (lit "[]"); unmarshal = λ s. ok [] }

abbrev refuse : {A : Type 0} → Io Memory Error A
refuse w = (err (sentinel not_found), w)

abbrev emma_again : Book
emma_again = record {
  id = 1;
  owner_id = 7;
  title = lit "Emma";
  author = lit "Austen";
  created_at = 0;
  updated_at = 0;
}

abbrev empty_store : BookPersistence Memory
empty_store = record {
  list = λ q w. (ok [], w);
  create = λ b w. (ok emma_again, w);
  first_by_id = λ id. refuse;
  update_fields = λ id title author. refuse;
  patch_fields = λ id title author. refuse;
  delete_by_id = λ id. refuse;
}

store_leaves : LeavesCache (λ w. w) no_platform empty_store none
store_leaves = record {
  list_keeps = λ q w j. refl;
  time_keeps = λ w j. refl;
  create_keeps = λ b w j. refl;
  first_keeps = λ id w j. refl;
  update_keeps = λ id title author w j. refl;
  patch_keeps = λ id title author w j. refl;
  delete_keeps = λ id w j. refl;
  publish_keeps = λ s e w j h. absurd (cc);
  count_keeps = λ s type r w j h. absurd (cc);
}

abbrev page_query : BookListQuery
page_query = record {
  offset = 0;
  limit = 10;
  title_like = [];
  author_like = [];
  owner_id = none;
  sort = lit "id";
  order = lit "asc";
}

page_query-IsListQuery : IsListQuery page_query
page_query-IsListQuery = record {
  known_sort = refl;
  known_order = refl;
  title_bytes = tt;
  author_bytes = tt;
}

-- A page is read and cached, then a book is created, which bumps the generation to 1.
abbrev moves : List (BookListQuery ⊎ Mutation)
moves = inl page_query ∷ []

abbrev adding : Mutation
adding = creating 7 (lit "Emma") (lit "Austen")

abbrev run : Mutation → Io Memory Error (Unit {0})
run = mutate no_platform empty_json empty_store (some memory_cache) none

abbrev paged : Memory
paged =
    after_moves no_platform empty_json empty_store memory_cache none memory_map moves (λ k. none)

unread : paged books_list_cache_gen_key ≡ none
unfolding after_moves list_books load_page books_list_data_cache_key format_uint digits_fuel
    hex_encode atoi read_digits cache_generation
unread = refl

counts : Counts no_platform empty_json empty_store memory_cache none memory_map paged
unfolding memory_map
counts v e = (0, rw (e ∙ unread) refl)

adding_works : succeeded (run adding paged).0 ≡ true
unfolding mutate create_book
adding_works = refl

commit_then_list_loads_example :
    let v = (run adding paged).1 in
    let gen = generation no_platform empty_json empty_store memory_cache none memory_map paged in
    let key = books_list_data_cache_key (suc gen) page_query in
    list_books no_platform empty_json empty_store (some memory_cache) none page_query v
    ≡ load_page no_platform empty_json empty_store
        (some memory_cache)
        none
        memory_cache
        key
        page_query
        v
unfolding memory_map
commit_then_list_loads_example =
    commit_then_list_loads no_platform empty_json empty_store memory_cache none memory_map
      store_leaves moves adding page_query (λ k. none) paged (page_query-IsListQuery, tt)
      page_query-IsListQuery (λ j. refl) refl counts adding_works
