-- ===== src/Service/Books/CacheLaws.antt =====
-- What the service relies on of Redis: a map, which only the calls of the cache write.
use golang_rest_api_template.Base.{ℕ, suc, ◌≤◌, ◌≡◌, ◌≢◌, Option, none, some, Bytes}
use golang_rest_api_template.Base.Integers.{pos, negsuc, atoi}
use golang_rest_api_template.Service.Events.{Publisher, Event, EventType}
use golang_rest_api_template.Errors.{redis_nil}
use golang_rest_api_template.Repository.Persistence.{BookPersistence, BookListQuery}
use golang_rest_api_template.Models.{Book}
use golang_rest_api_template.Result.{ok, err}
use golang_rest_api_template.Platform.{Platform}
use golang_rest_api_template.Cache.{Cache}
use golang_rest_api_template.Base.Integers.{atoi, pos}

-- The number that `cacheGeneration` makes of a value, 0 for none.
abbrev pub reading : Option Bytes → ℕ
reading none = 0
reading (some s) = elim (atoi s) [ none ↦ 0 | some n ↦ elim n [ pos k ↦ k | negsuc k ↦ 0 ] ]

-- Redis as a map: its reads do not fail, and a write concerns one key. `INCR` returns what it has
-- stored, one more than before.
pub record CacheMap {W : Type 0} (c : Cache W) : Type 0 where
  pub contents : W → Bytes → Option Bytes
  pub get_hit : (k v : Bytes) (w : W) → contents w k ≡ some v → (c.get k w).0 ≡ ok v
  pub get_miss : (k : Bytes) (w : W) → contents w k ≡ none → (c.get k w).0 ≡ err redis_nil
  pub get_keeps : (k : Bytes) (w : W) (j : Bytes) → contents (c.get k w).1 j ≡ contents w j
  pub set_other :
      (k v : Bytes) (n : ℕ) (w : W) (j : Bytes)
      → j ≢ k
      → contents (c.set k v n w).1 j ≡ contents w j
  pub incr_other :
      (k : Bytes) (w : W) (j : Bytes) → j ≢ k → contents (c.incr k w).1 j ≡ contents w j
  pub incr_up : (k : Bytes) (w : W) → reading (contents w k) ≤ reading (contents (c.incr k w).1 k)
  pub incr_ok :
      (k : Bytes) (w : W) (i : ℕ)
      → (c.incr k w).0 ≡ ok (pos (suc i))
      → (reading (contents w k) ≡ i) × (reading (contents (c.incr k w).1 k) ≡ suc i)

-- What is not the cache leaves it alone.
pub record LeavesCache {W : Type 0} (contents : W → Bytes → Option Bytes) (p : Platform W)
    (store : BookPersistence W) (publisher : Option (Publisher W)) : Type 0 where
  pub list_keeps :
      (q : BookListQuery) (w : W) (j : Bytes) → contents (store.list q w).1 j ≡ contents w j
  pub create_keeps : (b : Book) (w : W) (j : Bytes) → contents (store.create b w).1 j ≡ contents w j
  pub first_keeps :
      (id : ℕ) (w : W) (j : Bytes) → contents (store.first_by_id id w).1 j ≡ contents w j
  pub update_keeps :
      (id : ℕ) (title author : Bytes) (w : W) (j : Bytes)
      → contents (store.update_fields id title author w).1 j ≡ contents w j
  pub patch_keeps :
      (id : ℕ) (title author : Option Bytes) (w : W) (j : Bytes)
      → contents (store.patch_fields id title author w).1 j ≡ contents w j
  pub delete_keeps :
      (id : ℕ) (w : W) (j : Bytes) → contents (store.delete_by_id id w).1 j ≡ contents w j
  pub time_keeps : (w : W) (j : Bytes) → contents (p.time_now w).1 j ≡ contents w j
  pub publish_keeps :
      (s : Publisher W) (e : Event) (w : W) (j : Bytes)
      → publisher ≡ some s
      → contents (s.publish e w).1 j ≡ contents w j
  pub count_keeps :
      (s : Publisher W) (type : EventType) (r : Bytes) (w : W) (j : Bytes)
      → publisher ≡ some s
      → contents (s.count type r w) j ≡ contents w j
