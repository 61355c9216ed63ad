-- ===== src/Service/Books/Mutations.antt =====
-- pkg/service/book_service.go: what a mutation of a book does to the cache.
use golang_rest_api_template.Base.{
  ℕ, ◌≡◌, refl, ◌∙◌, ◌⊎◌, inl, inr, Bool, true, false, Option, some, Bytes, ◌==◌, Bool-cases,
}
use golang_rest_api_template.Result.{Result, ok, err, Io, ◌>>=◌, pure, Result-cases}
use golang_rest_api_template.Errors.{Error}
use golang_rest_api_template.Models.{Book}
use golang_rest_api_template.Platform.{Platform}
use golang_rest_api_template.Cache.{Cache}
use golang_rest_api_template.Repository.Persistence.{BookPersistence}
use golang_rest_api_template.Service.Events.{
  Publisher, EventType, book_created, book_updated, book_deleted,
}
use golang_rest_api_template.Service.Books.{
  BooksJson, create_book, replace_book, patch_book, delete_book, update_by, delete_by, announce,
  after_commit, new_book,
}
use golang_rest_api_template.Service.Books.CacheLaws.{LeavesCache}

pub data Mutation : Type 0 where
  creating : (owner_id : ℕ) (title author : Bytes) → Mutation
  replacing : (actor_id id : ℕ) (title author : Bytes) → Mutation
  patching : (actor_id id : ℕ) (title author : Option Bytes) → Mutation
  deleting : (actor_id id : ℕ) → Mutation

abbrev pub succeeded : {E A : Type 0} → Result E A → Bool
succeeded (ok a) = true
succeeded (err e) = false

module _ {W : Type 0} (p : Platform W) (json : BooksJson) (store : BookPersistence W)
    (redis : Option (Cache W)) (publisher : Option (Publisher W)) where
  -- The mutations of the service; the outcome without its value.
  unfoldable pub mutate : Mutation → Io W Error (Unit {0})
  mutate (creating owner_id title author) =
      create_book p json store redis publisher owner_id title author >>= λ b. pure tt
  mutate (replacing actor_id id title author) =
      replace_book p json store redis publisher actor_id id title author >>= λ b. pure tt
  mutate (patching actor_id id title author) =
      patch_book p json store redis publisher actor_id id title author >>= λ b. pure tt
  mutate (deleting actor_id id) = delete_book p json store redis publisher actor_id id

module _ {W : Type 0} (p : Platform W) (json : BooksJson) (store : BookPersistence W) (c : Cache W)
    (publisher : Option (Publisher W)) (contents : W → Bytes → Option Bytes)
    (leaves : LeavesCache contents p store publisher) where
  -- A mutation wrote nothing to the cache, and failed or committed; or it committed and bumped the
  -- generation, after calls that leave the cache alone.
  abbrev pub Mutates : {A : Type 0} → Result Error A × W → W → Type 0
  Mutates r w =
      (((j : Bytes) → contents r.1 j ≡ contents w j) × (succeeded r.0 ≡ false))
      ⊎ ((type : EventType) × ((b : Book) × ((v : W) × (((j : Bytes) → contents v j ≡ contents w j)
                × (r.1 ≡ after_commit p json store (some c) publisher type b v)))))

  announced :
      (type : EventType) (write : Io W Error Book) (w : W)
      → ((v : W) (j : Bytes) → contents (write v).1 j ≡ contents v j)
      → Mutates ((write >>= announce p json store (some c) publisher type) w) w
  unfolding announce
  announced type write w keeps = elim (Result-cases (write w).0) [
    | inl (b, e) ↦ rw e (inr (type, (b, ((write w).1, (keeps w, refl)))))
    | inr (x, e) ↦ rw e (inl (keeps w, refl))
  ]

  update_by-Mutates :
      (actor_id : ℕ) (b : Book) (write : Io W Error Book) (w : W)
      → ((v : W) (j : Bytes) → contents (write v).1 j ≡ contents v j)
      → Mutates (update_by p json store (some c) publisher actor_id b write w) w
  update_by-Mutates actor_id b write w keeps = elim (Bool-cases (b.owner_id == actor_id)) [
    | inl mine ↦ rw mine (announced book_updated write w keeps)
    | inr other ↦ rw other (inl (λ j. refl, refl))
  ]

  delete_by-Mutates :
      (actor_id id : ℕ) (b : Book) (w : W)
      → Mutates (delete_by p json store (some c) publisher actor_id id b w) w
  unfolding delete_by announce
  delete_by-Mutates actor_id id b w = elim (Bool-cases (b.owner_id == actor_id)) [
    | inr other ↦ rw other (inl (λ j. refl, refl))
    | inl mine ↦ elim (Result-cases (store.delete_by_id id w).0) [
      | inl (u, e) ↦
          rw (mine, e)
            (inr
              (book_deleted, (b, ((store.delete_by_id id w).1, (leaves.delete_keeps id w, refl)))))
      | inr (x, e) ↦ rw (mine, e) (inl (leaves.delete_keeps id w, refl))
    ]
  ]

  -- Behind the lookup of the book.
  after_lookup :
      {A : Type 0} (id : ℕ) (rest : Book → Io W Error A) (w : W)
      → ((b : Book) (v : W) → Mutates (rest b v) v)
      → Mutates ((store.first_by_id id >>= rest) w) w
  after_lookup id rest w mutates = elim (Result-cases (store.first_by_id id w).0) [
    | inr (x, e) ↦ rw e (inl (leaves.first_keeps id w, refl))
    | inl (b, e) ↦ rw e (
        let v = (store.first_by_id id w).1 in
        elim (mutates b v) [
          | inl (keeps, failed) ↦ inl (λ j. keeps j ∙ leaves.first_keeps id w j, failed)
          | inr (type, (b', (u, (keeps, done)))) ↦
              inr (type, (b', (u, (λ j. keeps j ∙ leaves.first_keeps id w j, done))))
        ])
  ]

  without_value :
      {A : Type 0} (m : Io W Error A) (w : W) → Mutates (m w) w → Mutates ((m >>= λ a. pure tt) w) w
  without_value m w h = elim (Result-cases (m w).0) [
    | inl (a, e) ↦ elim h [ inl (k, f) ↦ absurd (cc (rw e at f)) | inr k ↦ rw e (inr k) ]
    | inr (x, e) ↦ elim h [ inl (k, f) ↦ rw e (inl (k, refl)) | inr k ↦ rw e (inr k) ]
  ]

  pub mutate-Mutates :
      (m : Mutation) (w : W) → Mutates (mutate p json store (some c) publisher m w) w
  unfolding mutate create_book replace_book patch_book delete_book
  mutate-Mutates (creating owner_id title author) w =
      without_value {A = Book} (create_book p json store (some c) publisher owner_id title author) w
        (announced book_created
          (store.create (new_book p json store (some c) publisher owner_id title author)) w
          (leaves.create_keeps _))
  mutate-Mutates (replacing actor_id id title author) w =
      without_value {A = Book}
        (replace_book p json store (some c) publisher actor_id id title author) w
        (after_lookup {A = Book} id _ w (λ b v.
          update_by-Mutates actor_id b (store.update_fields id title author) v
            (leaves.update_keeps id title author)))
  mutate-Mutates (patching actor_id id title author) w =
      without_value {A = Book} (patch_book p json store (some c) publisher actor_id id title author)
        w
        (after_lookup {A = Book} id _ w (λ b v.
          update_by-Mutates actor_id b (store.patch_fields id title author) v
            (leaves.patch_keeps id title author)))
  mutate-Mutates (deleting actor_id id) w =
      after_lookup {A = Unit {0}} id _ w (λ b v. delete_by-Mutates actor_id id b v)
