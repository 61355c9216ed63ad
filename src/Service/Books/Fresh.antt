-- ===== src/Service/Books/Fresh.antt =====
-- pkg/service/book_service.go: the cached pages of `ListBooks` and the generation that a mutation
-- bumps.
use golang_rest_api_template.Base.{
  ℕ, suc, ◌<◌, ◌≡◌, refl, sym, ap, ◌∙◌, ◌≢◌, ◌⊎◌, inl, inr, true, Option, none, some, List, [], ◌∷◌,
  arith, Option-cases, All, Bytes,
}
use golang_rest_api_template.Service.CacheKey.Injective.{books_list_data_cache_key-injective}
use golang_rest_api_template.Models.{Book}
use mathlib.Core.List.{cons-eq-cons}
use golang_rest_api_template.Base.Integers.{pos}
use golang_rest_api_template.Repository.ListQuery.{IsListQuery}
use golang_rest_api_template.Service.CacheKey.{books_list_cache_gen_key, books_list_data_cache_key}
use golang_rest_api_template.Service.Events.{Publisher, EventType}
use golang_rest_api_template.Errors.{Cause}
use golang_rest_api_template.Repository.Persistence.{BookPersistence, BookListQuery}
use golang_rest_api_template.Result.{ok, err, Result-cases, Result}
use golang_rest_api_template.Platform.{Platform}
use golang_rest_api_template.Cache.{Cache}
use golang_rest_api_template.Base.Integers.{pos}
use golang_rest_api_template.Service.Books.Mutations.{Mutation, succeeded, mutate, mutate-Mutates}
use golang_rest_api_template.Service.Books.CacheLaws.{reading, CacheMap, LeavesCache}
use golang_rest_api_template.Service.Books.{
  generation_of, cache_generation, bump_list_cache_generation, list_books, list_cached, cached_page,
  load_page, after_commit, publish_book_event, BooksJson, publish_with,
}

module _ {W : Type 0} (p : Platform W) (json : BooksJson) (store : BookPersistence W) (c : Cache W)
    (publisher : Option (Publisher W)) (redis_map : CacheMap c) where
  open redis_map use {
    contents, get_hit, get_miss, get_keeps, set_other, incr_other, incr_up, incr_ok,
  }

  abbrev pub generation : W → ℕ
  generation w = reading (contents w books_list_cache_gen_key)

  -- No page is cached under a generation to come.
  pub IsAhead : W → Type 0
  IsAhead w =
      (g : ℕ) (q : BookListQuery)
      → IsListQuery q
      → generation w < g
      → contents w (books_list_data_cache_key g q) ≡ none

  cache_generation_lem :
      (w : W) → (cache_generation p json store (some c) publisher c w).0 ≡ generation w
  unfolding cache_generation generation_of
  cache_generation_lem w = elim (Option-cases (contents w books_list_cache_gen_key)) [
    | inl e ↦ rw (get_miss _ w e, e) refl
    | inr (s, e) ↦ rw (get_hit _ s w e, e) refl
  ]

  data_key_ne :
      (g : ℕ) (q : BookListQuery) → books_list_data_cache_key g q ≢ books_list_cache_gen_key
  unfolding books_list_data_cache_key
  data_key_ne g q e = let first = (cons-eq-cons.0 e).0 in omega arith

  miss_loads :
      (g : ℕ) (q : BookListQuery) (w : W)
      → contents w (books_list_data_cache_key g q) ≡ none
      → cached_page p json store
          (some c)
          publisher
          c
          (books_list_data_cache_key g q)
          q
          (c.get (books_list_data_cache_key g q) w).0
          (c.get (books_list_data_cache_key g q) w).1
        ≡ load_page p json store
            (some c)
            publisher
            c
            (books_list_data_cache_key g q)
            q
            (c.get (books_list_data_cache_key g q) w).1
  unfolding cached_page
  miss_loads g q w e = rw (get_miss _ w e) refl

  load_page-contents :
      (leaves : LeavesCache contents p store publisher) (key : Bytes) (q : BookListQuery) (w : W)
      (j : Bytes)
      → j ≢ key
      → contents (load_page p json store (some c) publisher c key q w).1 j ≡ contents w j
  unfolding load_page
  load_page-contents leaves key q w j other = elim (Result-cases (store.list q w).0) [
    | inr (x, e) ↦ rw e (leaves.list_keeps q w j)
    | inl (page, e) ↦ rw e (elim (Result-cases (json.marshal page)) [
      | inr (x, f) ↦ rw f (leaves.list_keeps q w j)
      | inl (text, f) ↦ rw f (
          let w1 = (store.list q w).1 in
          let kept = set_other key text 60000000000 w1 j other ∙ leaves.list_keeps q w j in
          elim (Result-cases (c.set key text 60000000000 w1).0) [
            | inl (u, g) ↦ rw g kept
            | inr (x, g) ↦ rw g kept
          ])
    ])
  ]

  cached_page-contents :
      (leaves : LeavesCache contents p store publisher) (key : Bytes) (q : BookListQuery)
      (r : Result Cause Bytes) (w : W) (j : Bytes)
      → j ≢ key
      → contents (cached_page p json store (some c) publisher c key q r w).1 j ≡ contents w j
  unfolding cached_page
  cached_page-contents leaves key q (ok text) w j other = refl
  cached_page-contents leaves key q (err e) w j other = load_page-contents leaves key q w j other

  list_books-contents :
      (leaves : LeavesCache contents p store publisher) (q : BookListQuery) (w : W) (j : Bytes)
      → j ≢ books_list_data_cache_key (generation w) q
      → contents (list_books p json store (some c) publisher q w).1 j ≡ contents w j
  unfolding list_books list_cached cache_generation
  list_books-contents leaves q w j other =
      cached_page-contents leaves _ q _ _ j (rw (cache_generation_lem w) other)
      ∙ get_keeps _ _ j
      ∙ get_keeps books_list_cache_gen_key w j

  publish-contents :
      (leaves : LeavesCache contents p store publisher) (type : EventType) (b : Book) (w : W)
      (j : Bytes)
      → contents (publish_book_event p json store (some c) publisher type b w) j ≡ contents w j
  unfolding publish_book_event publish_with
  publish-contents leaves type b w j = elim (Option-cases publisher) [
    | inl e ↦ rw e refl
    | inr (s, e) ↦
        rw e (
          leaves.count_keeps s type _ _ j e
          ∙ leaves.publish_keeps s _ _ j e
          ∙ leaves.time_keeps w j)
  ]

  after_commit-contents :
      (leaves : LeavesCache contents p store publisher) (type : EventType) (b : Book) (w : W)
      (j : Bytes)
      → contents (after_commit p json store (some c) publisher type b w) j
        ≡ contents (c.incr books_list_cache_gen_key w).1 j
  unfolding after_commit bump_list_cache_generation
  after_commit-contents leaves type b w j = publish-contents leaves type b _ j

  other_key :
      (g h : ℕ) (q r : BookListQuery)
      → IsListQuery q
      → IsListQuery r
      → g < h
      → books_list_data_cache_key h r ≢ books_list_data_cache_key g q
  other_key g h q r iq ir less e =
      let same = (books_list_data_cache_key-injective h g r q ir iq e).0 in omega arith

  list_books-IsAhead :
      (leaves : LeavesCache contents p store publisher) (q : BookListQuery) (w : W)
      → IsListQuery q
      → IsAhead w
      → IsAhead (list_books p json store (some c) publisher q w).1
  unfolding IsAhead
  list_books-IsAhead leaves q w iq ahead g r ir less =
      let same = ap reading (
        list_books-contents leaves q w books_list_cache_gen_key
          (λ e. data_key_ne (generation w) q (sym e))) in
      let up : generation w < g = omega arith in
      list_books-contents leaves q w (books_list_data_cache_key g r)
        (other_key (generation w) g q r iq ir up)
      ∙ ahead g r ir up

  after_commit-IsAhead :
      (leaves : LeavesCache contents p store publisher) (type : EventType) (b : Book) (w : W)
      → IsAhead w
      → IsAhead (after_commit p json store (some c) publisher type b w)
  unfolding IsAhead
  after_commit-IsAhead leaves type b w ahead g r ir less =
      let same = ap reading (after_commit-contents leaves type b w books_list_cache_gen_key) in
      let up : generation w < g = omega (arith, incr_up books_list_cache_gen_key w) in
      after_commit-contents leaves type b w (books_list_data_cache_key g r)
      ∙ incr_other books_list_cache_gen_key w _ (data_key_ne g r)
      ∙ ahead g r ir up

  list_after_commit_loads :
      (leaves : LeavesCache contents p store publisher) (type : EventType) (b : Book)
      (q : BookListQuery) (i : ℕ) (w : W)
      → IsListQuery q
      → IsAhead w
      → (c.incr books_list_cache_gen_key w).0 ≡ ok (pos (suc i))
      → let v = after_commit p json store (some c) publisher type b w in
        let key = books_list_data_cache_key (suc i) q in
        list_books p json store (some c) publisher q v
        ≡ load_page p json store
            (some c)
            publisher
            c
            key
            q
            (c.get key (c.get books_list_cache_gen_key v).1).1
  unfolding list_books list_cached cache_generation IsAhead
  list_after_commit_loads leaves type b q i w iq ahead bumped =
      let v = after_commit p json store (some c) publisher type b w in
      let key = books_list_data_cache_key (suc i) q in
      let (before, after) = incr_ok books_list_cache_gen_key w i bumped in
      let gen : generation v ≡ suc i =
        ap reading (after_commit-contents leaves type b w books_list_cache_gen_key) ∙ after in
      let empty : contents (c.get books_list_cache_gen_key v).1 key ≡ none =
        get_keeps books_list_cache_gen_key v key
        ∙ after_commit-contents leaves type b w key
        ∙ incr_other books_list_cache_gen_key w key (data_key_ne (suc i) q)
        ∙ ahead (suc i) q iq (omega arith) in
      rw (cache_generation_lem v ∙ gen) (miss_loads (suc i) q _ empty)

  -- What uses the list cache: a page is read, or a mutation is asked for.
  unfoldable pub after_moves : List (BookListQuery ⊎ Mutation) → W → W
  after_moves [] w = w
  after_moves (inl q ∷ moves) w =
      after_moves moves (list_books p json store (some c) publisher q w).1
  after_moves (inr m ∷ moves) w = after_moves moves (mutate p json store (some c) publisher m w).1

  abbrev pub IsMove : BookListQuery ⊎ Mutation → Type 0
  IsMove (inl q) = IsListQuery q
  IsMove (inr m) = Unit

  IsAhead-same : (v w : W) → ((j : Bytes) → contents v j ≡ contents w j) → IsAhead w → IsAhead v
  unfolding IsAhead
  IsAhead-same v w same ahead g q iq less =
      let at = ap reading (same books_list_cache_gen_key) in same _ ∙ ahead g q iq (omega arith)

  mutate-IsAhead :
      (leaves : LeavesCache contents p store publisher) (m : Mutation) (w : W)
      → IsAhead w
      → IsAhead (mutate p json store (some c) publisher m w).1
  mutate-IsAhead leaves m w ahead =
      elim (mutate-Mutates p json store c publisher contents leaves m w) [
        | inl (same, failed) ↦ IsAhead-same _ w same ahead
        | inr (type, (b, (v, (same, done)))) ↦
            rw done (after_commit-IsAhead leaves type b v (IsAhead-same v w same ahead))
      ]

  after_moves-IsAhead :
      (leaves : LeavesCache contents p store publisher) (moves : List (BookListQuery ⊎ Mutation))
      (w : W)
      → All IsMove moves
      → IsAhead w
      → IsAhead (after_moves moves w)
  unfolding after_moves
  after_moves-IsAhead leaves [] w h ahead = ahead
  after_moves-IsAhead leaves (inl q ∷ moves) w (iq, h) ahead =
      after_moves-IsAhead leaves moves _ h (list_books-IsAhead leaves q w iq ahead)
  after_moves-IsAhead leaves (inr m ∷ moves) w (u, h) ahead =
      after_moves-IsAhead leaves moves _ h (mutate-IsAhead leaves m w ahead)

  -- `INCR` succeeds where the generation is the one of `w`.
  abbrev pub Counts : W → Type 0
  Counts w =
      (v : W)
      → contents v books_list_cache_gen_key ≡ contents w books_list_cache_gen_key
      → (i : ℕ) × ((c.incr books_list_cache_gen_key v).0 ≡ ok (pos (suc i)))

  mutate_then_list_loads :
      (leaves : LeavesCache contents p store publisher) (m : Mutation) (q : BookListQuery) (w : W)
      → IsListQuery q
      → IsAhead w
      → Counts w
      → succeeded (mutate p json store (some c) publisher m w).0 ≡ true
      → let v = (mutate p json store (some c) publisher m w).1 in
        let key = books_list_data_cache_key (suc (generation w)) q in
        list_books p json store (some c) publisher q v
        ≡ load_page p json store
            (some c)
            publisher
            c
            key
            q
            (c.get key (c.get books_list_cache_gen_key v).1).1
  mutate_then_list_loads leaves m q w iq ahead counts success =
      elim (mutate-Mutates p json store c publisher contents leaves m w) [
        | inl (same, failed) ↦ absurd (cc (failed, success))
        | inr (type, (b, (v, (same, done)))) ↦
            let (i, bumped) = counts v (same books_list_cache_gen_key) in
            let before : generation w ≡ i =
              ap reading (sym (same books_list_cache_gen_key))
              ∙ (incr_ok books_list_cache_gen_key v i bumped).0 in
            rw (done, before)
              (list_after_commit_loads leaves type b q i v iq (IsAhead-same v w same ahead) bumped)
      ]

  -- Starting from an empty cache, after any sequence of `ListBooks` calls and of calls of
  -- `CreateBook`, `ReplaceBook`, `PatchBook` and `DeleteBook`, such a call that succeeds is
  -- followed by a `ListBooks` that loads the page from the store, under the key of the generation
  -- one above that before the call, and never by one that answers from the cache. Conditions: the
  -- queries have a known sort field and order and filters that are bytes; reads of the cache do
  -- not fail, a write concerns one key, `INCR` returns what it stores and succeeds on the
  -- generation that stands before the call; the store, the clock and the publisher leave the cache
  -- alone.
  pub commit_then_list_loads :
      (leaves : LeavesCache contents p store publisher) (moves : List (BookListQuery ⊎ Mutation))
      (m : Mutation) (q : BookListQuery) (w0 w : W)
      → All IsMove moves
      → IsListQuery q
      → ((j : Bytes) → contents w0 j ≡ none)
      → w ≡ after_moves moves w0
      → Counts w
      → succeeded (mutate p json store (some c) publisher m w).0 ≡ true
      → let v = (mutate p json store (some c) publisher m w).1 in
        let key = books_list_data_cache_key (suc (generation w)) q in
        list_books p json store (some c) publisher q v
        ≡ load_page p json store
            (some c)
            publisher
            c
            key
            q
            (c.get key (c.get books_list_cache_gen_key v).1).1
  unfolding IsAhead
  commit_then_list_loads leaves moves m q w0 w h iq empty here counts success =
      mutate_then_list_loads leaves m q w iq
        (rw here (after_moves-IsAhead leaves moves w0 h (λ g r ir less. empty _))) counts success
