-- ===== src/Service/Books/Ownership.antt =====
-- pkg/service/book_service.go: `CreateBook`, `ReplaceBook`, `PatchBook` and `DeleteBook` over the SQL
-- store, and the books of other users.
use golang_rest_api_template.Repository.Books.Rows.{
  first_by_id-keeps, delete_by_id-KeepsBook, update_fields-KeepsBook, first_by_id_ok,
  patch_fields-KeepsBook, create-KeepsBook,
}
use golang_rest_api_template.Base.{
  ℕ, ◌≡◌, refl, sym, ◌∙◌, subst, ◌≢◌, inl, inr, true, false, Option, none, some, List, arith, ◌==◌,
  Bool-cases, Bytes,
}
use golang_rest_api_template.Repository.Tables.{Tables}
use golang_rest_api_template.Models.{Book}
use golang_rest_api_template.Result.{Io, Result-cases, ◌>>=◌}
use golang_rest_api_template.Errors.{Error}
use golang_rest_api_template.Platform.{Platform}
use golang_rest_api_template.Cache.{Cache}
use golang_rest_api_template.Repository.Persistence.{BookListQuery}
use golang_rest_api_template.Repository.Driver.{Driver, DriverLaws}
use golang_rest_api_template.Repository.Books as Store
use golang_rest_api_template.Repository.Books.{book_store, to_int64}
use golang_rest_api_template.Repository.Tables.Books.{book_of, KeepsBook}
use golang_rest_api_template.Service.Events.{
  EventType, Publisher, Event, book_created, book_updated, book_deleted,
}
use golang_rest_api_template.Service.Books
use golang_rest_api_template.Service.Books.{
  BooksJson, publish_book_event, bump_list_cache_generation, publish_with, after_commit, announce,
  delete_by, replace_book, patch_book, new_book, update_by,
}
use golang_rest_api_template.Service.Users.Frame.{Frame}

pub record CacheFrame {W : Type 0} (d : Driver W) (c : Cache W) : Type 0 where
  pub get_keeps : (k : Bytes) (w : W) → d.tables (c.get k w).1 ≡ d.tables w
  pub set_keeps : (k v : Bytes) (n : ℕ) (w : W) → d.tables (c.set k v n w).1 ≡ d.tables w
  pub incr_keeps : (k : Bytes) (w : W) → d.tables (c.incr k w).1 ≡ d.tables w

pub record PublisherFrame {W : Type 0} (d : Driver W) (s : Publisher W) : Type 0 where
  pub publish_keeps : (e : Event) (w : W) → d.tables (s.publish e w).1 ≡ d.tables w
  pub count_keeps : (t : EventType) (r : Bytes) (w : W) → d.tables (s.count t r w) ≡ d.tables w

-- Redis and the broker are not the database: an optional collaborator does not write to it.
abbrev pub Every : {A : Type 0} → (A → Type 0) → Option A → Type 0
Every P none = Unit {0}
Every P (some a) = P a

pub data Mutation : Type 0 where
  creates : (title author : Bytes) → Mutation
  replaces : (id : ℕ) (title author : Bytes) → Mutation
  patches : (id : ℕ) (title author : Option Bytes) → Mutation
  deletes : (id : ℕ) → Mutation

module _ {W : Type 0} (p : Platform W) (json : BooksJson) (d : Driver W)
    (list : BookListQuery → Io W Error (List Book)) (redis : Option (Cache W))
    (publisher : Option (Publisher W)) where
  -- The world that a mutation by a user leaves, whether it succeeds or fails.
  pub after_mutation : ℕ → Mutation → W → W
  after_mutation actor_id (creates title author) w =
      (Books.create_book p json (book_store d list) redis publisher actor_id title author w).1
  after_mutation actor_id (replaces id title author) w =
      (replace_book p json (book_store d list) redis publisher actor_id id title author w).1
  after_mutation actor_id (patches id title author) w =
      (patch_book p json (book_store d list) redis publisher actor_id id title author w).1
  after_mutation actor_id (deletes id) w =
      (Books.delete_book p json (book_store d list) redis publisher actor_id id w).1

  module _ (laws : DriverLaws d) (frame : Frame p d) (cache_frame : Every (CacheFrame d) redis)
      (publisher_frame : Every (PublisherFrame d) publisher) where
    bump-keeps :
        (r : Option (Cache W)) (f : Every (CacheFrame d) r) (w : W)
        → d.tables (bump_list_cache_generation p json (book_store d list) r publisher w)
          ≡ d.tables w
    unfolding bump_list_cache_generation
    bump-keeps none f w = refl
    bump-keeps (some c) f w = f.incr_keeps _ w

    publish-keeps :
        (s : Option (Publisher W)) (f : Every (PublisherFrame d) s) (type : EventType) (b : Book)
        (w : W)
        → d.tables (publish_book_event p json (book_store d list) redis s type b w) ≡ d.tables w
    unfolding publish_book_event publish_with
    publish-keeps none f type b w = refl
    publish-keeps (some s) f type b w =
        f.count_keeps _ _ _ ∙ f.publish_keeps _ _ ∙ frame.time_keeps w

    after_commit-keeps :
        (type : EventType) (b : Book) (w : W)
        → d.tables (after_commit p json (book_store d list) redis publisher type b w) ≡ d.tables w
    unfolding after_commit
    after_commit-keeps type b w =
        publish-keeps publisher publisher_frame type b _ ∙ bump-keeps redis cache_frame w

    write-KeepsBook :
        {A : Type 0} (j : ℕ) (type : EventType) (write : Io W Error A) (of : A → Book) (w : W)
        → KeepsBook j (d.tables w) (d.tables (write w).1)
        → KeepsBook j (d.tables w) (
            d.tables
              ((write >>= λ a. announce p json (book_store d list) redis publisher type (of a))
                w).1)
    unfolding announce
    write-KeepsBook j type write of w h = elim (Result-cases (write w).0) [
      | inr (x, e) ↦ rw e h
      | inl (a, e) ↦ rw e (rw (after_commit-keeps type (of a) (write w).1) h)
    ]

    module _ (actor_id j : ℕ) (b : Book) (foreign : b.owner_id ≢ actor_id) where
      -- A row that the actor owns is another row.
      owned_is_other :
          (id : ℕ) (c : Book) (t : Tables)
          → book_of j t ≡ some b
          → book_of id t ≡ some c
          → (c.owner_id == actor_id) ≡ true
          → j ≢ id
      owned_is_other id c t here there own same =
          foreign (ground (arith, subst (λ i. book_of i t ≡ some c) (sym same) there))

      create-keeps :
          (title author : Bytes) (w : W)
          → book_of j (d.tables w) ≡ some b
          → book_of j (d.tables (after_mutation actor_id (creates title author) w)) ≡ some b
      unfolding after_mutation Books.create_book
      create-keeps title author w here =
          let book = new_book p json (book_store d list) redis publisher actor_id title author in
          write-KeepsBook j book_created (Store.create d book) (λ x. x) w
            (create-KeepsBook d laws book j w) b here

      -- The read that the three other mutations begin with, and a rest that tests the owner.
      guarded :
          {A : Type 0} (id : ℕ) (rest : Book → Io W Error A) (w : W)
          → ((c : Book) (v : W)
              → (c.owner_id == actor_id) ≡ false
              → d.tables (rest c v).1 ≡ d.tables v)
          → ((c : Book) (v : W)
              → (c.owner_id == actor_id) ≡ true
              → j ≢ to_int64 id
              → KeepsBook j (d.tables v) (d.tables (rest c v).1))
          → book_of j (d.tables w) ≡ some b
          → book_of j (d.tables ((Store.first_by_id d id >>= rest) w).1) ≡ some b
      guarded id rest w denied allowed here =
          let w' = (Store.first_by_id d id w).1 in
          let keeps : d.tables w' ≡ d.tables w = first_by_id-keeps d laws id w in
          elim (Result-cases (Store.first_by_id d id w).0) [
            | inr (x, e) ↦ rw (e, keeps) here
            | inl (c, e) ↦ rw e (elim (Bool-cases (c.owner_id == actor_id)) [
              | inr no_owner ↦ rw (denied c w' no_owner, keeps) here
              | inl own ↦
                  allowed c w' own
                    (owned_is_other (to_int64 id) c (d.tables w) here
                      (first_by_id_ok d laws id w c e) own)
                    b (rw keeps here)
            ])
          ]

      update_by-keeps :
          (id : ℕ) (write : Io W Error Book) (w : W)
          → ((v : W) → j ≢ to_int64 id → KeepsBook j (d.tables v) (d.tables (write v).1))
          → book_of j (d.tables w) ≡ some b
          → book_of j (
              d.tables
                ((Store.first_by_id d id >>= λ c.
                    update_by p json (book_store d list) redis publisher actor_id c write)
                  w).1)
            ≡ some b
      update_by-keeps id write w h =
          guarded id (λ c. update_by p json (book_store d list) redis publisher actor_id c write) w
            (λ c v no_owner. rw no_owner)
            (λ c v own other. rw own (write-KeepsBook j book_updated write (λ x. x) v (h v other)))

      delete_by-keeps :
          (id : ℕ) (c : Book) (v : W)
          → (c.owner_id == actor_id) ≡ true
          → j ≢ to_int64 id
          → KeepsBook j
              (d.tables v)
              (d.tables (delete_by p json (book_store d list) redis publisher actor_id id c v).1)
      unfolding delete_by announce
      delete_by-keeps id c v own other = rw own (elim (Result-cases (Store.delete_by_id d id v).0) [
        | inr (x, e) ↦ rw e (delete_by_id-KeepsBook d laws id j v other)
        | inl (a, e) ↦ rw e (
            rw (after_commit-keeps book_deleted c (Store.delete_by_id d id v).1)
              (delete_by_id-KeepsBook d laws id j v other))
      ])

      denied-keeps :
          (id : ℕ) (c : Book) (v : W)
          → (c.owner_id == actor_id) ≡ false
          → d.tables (delete_by p json (book_store d list) redis publisher actor_id id c v).1
            ≡ d.tables v
      unfolding delete_by
      denied-keeps id c v no_owner = rw no_owner

      -- A book that is stored under an id, of another owner than the acting user, is the same
      -- after `CreateBook`, `ReplaceBook`, `PatchBook` or `DeleteBook` by that user, whether the
      -- call succeeds or fails. Conditions: the driver keeps its laws, whichever of its calls it
      -- fails; the platform, the cache and the publisher, where there are any, do not write to the
      -- database.
      pub mutation-keeps :
          (m : Mutation) (w : W)
          → book_of j (d.tables w) ≡ some b
          → book_of j (d.tables (after_mutation actor_id m w)) ≡ some b
      unfolding after_mutation replace_book patch_book Books.delete_book
      mutation-keeps (creates title author) w here = create-keeps title author w here
      mutation-keeps (replaces id title author) w here =
          update_by-keeps id (Store.update_fields d id title author) w
            (λ v other. update_fields-KeepsBook d laws id title author j v other) here
      mutation-keeps (patches id title author) w here =
          update_by-keeps id (Store.patch_fields d id title author) w
            (λ v other. patch_fields-KeepsBook d laws id title author j v other) here
      mutation-keeps (deletes id) w here =
          guarded id (delete_by p json (book_store d list) redis publisher actor_id id) w
            (denied-keeps id) (delete_by-keeps id) here
