-- ===== src/Service/Books.antt =====
-- pkg/service/book_service.go: `BookService`. The cache and the publisher are optional, as in the
-- source; JSON coding is a parameter. Calls coalesced by `singleflight` are one call of the loader.
pub mod Ownership
pub mod CacheLaws
pub mod Mutations
pub mod Fresh
use golang_rest_api_template.Base.{
  ◌*◌, ℕ, Bytes, lit, ◌==◌, not, if◌then◌else◌, Option, none, some, List, format_uint,
}
use golang_rest_api_template.Base.Integers.{pos, negsuc, atoi}
use golang_rest_api_template.Result.{Result, ok, err, Io, ◌>>=◌, ◌>>◌, pure, raise, map_err}
use golang_rest_api_template.Errors.{
  Error, Cause, Sentinel, sentinel, wrap, cause, book_forbidden, list_books_db, list_books_marshal,
  list_books_redis, list_books_unmarshal,
}
use golang_rest_api_template.Models.{Book}
use golang_rest_api_template.Platform.{Platform}
use golang_rest_api_template.Cache.{Cache}
use golang_rest_api_template.Repository.Persistence.{BookPersistence, BookListQuery}
use golang_rest_api_template.Auth.Tokens.{second}
use golang_rest_api_template.Service.Events.{
  book_created, book_updated, book_deleted, Event, EventType, BookPayloadV1, Publisher,
  aggregate_books,
}
use golang_rest_api_template.Service.CacheKey.{books_list_cache_gen_key, books_list_data_cache_key}

-- `encoding/json` on `[]models.Book`.
pub record BooksJson : Type 0 where
  pub marshal : List Book → Result Cause Bytes
  pub unmarshal : Bytes → Result Cause (List Book)

abbrev pub payload_of : Book → BookPayloadV1
payload_of b = record { id = b.id; owner_id = b.owner_id; title = b.title; author = b.author }

abbrev pub event_of : EventType → Book → ℕ → Event
event_of type b now = record {
  type = type;
  aggregate = aggregate_books;
  key = format_uint b.id;
  occurred_at = now;
  payload = payload_of b;
}

abbrev result_label : {E A : Type 0} → Result E A → Bytes
result_label (ok a) = lit "success"
result_label (err e) = lit "error"

module _ {W : Type 0} (p : Platform W) (json : BooksJson) (store : BookPersistence W)
    (redis : Option (Cache W)) (publisher : Option (Publisher W)) where
  -- A failure of the publisher is counted, and never returned.
  pub publish_with : EventType → Book → Publisher W → W → W
  publish_with type b pub_ w =
      let (now, w') = p.time_now w in
      let (r, w'') = pub_.publish (event_of type b now) w' in pub_.count type (result_label r) w''

  unfoldable publish_book_event : EventType → Book → W → W
  unfolding publish_with
  publish_book_event type b w = elim publisher [ none ↦ w | some sink ↦ publish_with type b sink w ]

  pub generation_of : Result Cause Bytes → ℕ
  generation_of (err e) = 0
  generation_of (ok s) = elim (atoi s) [ none ↦ 0 | some n ↦ elim n [ pos k ↦ k | negsuc k ↦ 0 ] ]

  unfoldable pub cache_generation : Cache W → W → ℕ × W
  unfolding generation_of
  cache_generation c w = let (r, w') = c.get books_list_cache_gen_key w in (generation_of r, w')

  unfoldable bump_list_cache_generation : W → W
  bump_list_cache_generation w = elim redis [
    | none ↦ w
    | some c ↦ (c.incr books_list_cache_gen_key w).1
  ]

  lift : {A : Type 0} → Sentinel → Result Cause A → Io W Error A
  lift s r = map_err (λ e. wrap s (cause e)) (λ w. (r, w))

  -- The body that `singleflight` runs once for each key.
  unfoldable pub load_page : Cache W → Bytes → BookListQuery → Io W Error (List Book)
  unfolding lift
  load_page c key q = do
    loaded ← map_err (wrap list_books_db) (store.list q)
    text ← lift list_books_marshal (json.marshal loaded)
    map_err (λ e. wrap list_books_redis (cause e)) (c.set key text (60 * second))
    pure loaded

  pub cached_page : Cache W → Bytes → BookListQuery → Result Cause Bytes → Io W Error (List Book)
  unfolding load_page
  cached_page c key q (ok text) = lift list_books_unmarshal (json.unmarshal text)
  cached_page c key q (err e) = load_page c key q

  pub list_cached : BookListQuery → Cache W → Io W Error (List Book)
  unfolding cached_page cache_generation
  list_cached q c w =
      let (gen, w') = cache_generation c w in
      let key = books_list_data_cache_key gen q in
      let (r, w'') = c.get key w' in cached_page c key q r w''

  unfoldable pub list_books : BookListQuery → Io W Error (List Book)
  unfolding list_cached
  list_books q w = elim redis [ none ↦ store.list q w | some c ↦ list_cached q c w ]

  -- What follows a committed mutation.
  pub after_commit : EventType → Book → W → W
  unfolding publish_book_event bump_list_cache_generation
  after_commit type b w = publish_book_event type b (bump_list_cache_generation w)

  pub announce : EventType → Book → Io W Error Book
  unfolding after_commit
  announce type b w = (ok b, after_commit type b w)

  abbrev pub new_book : ℕ → Bytes → Bytes → Book
  new_book owner_id title author = record {
    id = 0;
    owner_id = owner_id;
    title = title;
    author = author;
    created_at = 0;
    updated_at = 0;
  }

  unfoldable pub create_book : (owner_id : ℕ) (title author : Bytes) → Io W Error Book
  unfolding announce
  create_book owner_id title author = do
    b ← store.create (new_book owner_id title author)
    announce book_created b

  unfoldable pub get_book : ℕ → Io W Error Book
  get_book id = store.first_by_id id

  abbrev pub update_by : ℕ → Book → Io W Error Book → Io W Error Book
  update_by actor_id b write =
      if not (b.owner_id == actor_id)
      then raise (sentinel book_forbidden)
      else do book ← write; announce book_updated book

  unfoldable pub replace_book : (actor_id id : ℕ) (title author : Bytes) → Io W Error Book
  unfolding announce
  replace_book actor_id id title author = do
    b ← store.first_by_id id
    update_by actor_id b (store.update_fields id title author)

  unfoldable pub patch_book : (actor_id id : ℕ) (title author : Option Bytes) → Io W Error Book
  unfolding announce
  patch_book actor_id id title author = do
    b ← store.first_by_id id
    update_by actor_id b (store.patch_fields id title author)

  unfoldable pub delete_by : ℕ → ℕ → Book → Io W Error (Unit {0})
  unfolding announce
  delete_by actor_id id b =
      if not (b.owner_id == actor_id)
      then raise (sentinel book_forbidden)
      else do store.delete_by_id id; announce book_deleted b; pure tt

  unfoldable pub delete_book : (actor_id id : ℕ) → Io W Error (Unit {0})
  unfolding delete_by
  delete_book actor_id id = do b ← store.first_by_id id; delete_by actor_id id b
