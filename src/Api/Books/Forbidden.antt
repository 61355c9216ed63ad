-- ===== src/Api/Books/Forbidden.antt =====
-- pkg/api/books.go: the answer to a change of another user's book.
use golang_rest_api_template.Base.{ℕ, ◌≡◌, refl, false, Option, none, some, ◌==◌, Bytes, lit}
use golang_rest_api_template.Api.Query.{context_user_id, parse_id_param}
use golang_rest_api_template.Result.{ok}
use golang_rest_api_template.Models.{Book}
use golang_rest_api_template.Service.Events.{Publisher}
use golang_rest_api_template.Cache.{Cache}
use golang_rest_api_template.Repository.Persistence.{BookPersistence}
use golang_rest_api_template.Platform.{Platform}
use golang_rest_api_template.Api.Books
use golang_rest_api_template.Api.Books.{BookBinding, bind, update_book, patch_book_handler}
use golang_rest_api_template.Service.Books as Service
use golang_rest_api_template.Service.Books.{BooksJson, replace_book, patch_book, delete_by}
use golang_rest_api_template.Http.{Context, Handler, write_error}

module _ {W : Type 0} (p : Platform W) (json : BooksJson) (store : BookPersistence W)
    (redis : Option (Cache W)) (publisher : Option (Publisher W)) (binding : BookBinding) where
  -- A request of a user for the book of another one, as the store finds it.
  pub record Foreign (c : Context) (w : W) : Type 0 where
    pub actor_id : ℕ
    pub id : ℕ
    pub book : Book
    pub acting : context_user_id c ≡ some actor_id
    pub asked : parse_id_param c ≡ ok id
    pub found : (store.first_by_id id w).0 ≡ ok book
    pub other_owner : (book.owner_id == actor_id) ≡ false

  -- A request that changes a book, with the body that it is bound to.
  pub data Change (c : Context) : Type 0 where
    replaces : (title author : Bytes) → bind binding.replace_book c ≡ ok (title, author) → Change c
    patches_title :
        (title : Bytes) (author : Option Bytes)
        → bind binding.patch_book c ≡ ok (some title, author)
        → Change c
    patches_author :
        (author : Bytes) → bind binding.patch_book c ≡ ok (none, some author) → Change c
    deletes : Change c

  abbrev pub change_handler : {c : Context} → Change c → Handler W
  change_handler (replaces title author e) = update_book p json store redis publisher binding
  change_handler (patches_title title author e) =
      patch_book_handler p json store redis publisher binding
  change_handler (patches_author author e) = patch_book_handler p json store redis publisher binding
  change_handler deletes = Books.delete_book p json store redis publisher binding

  -- A request that replaces, patches or deletes a book that the store finds, of another owner than
  -- the acting user, is answered with 403, and after the lookup of the book nothing else is done.
  -- Conditions: the context has a user, the id in the path is a number, and the body of a
  -- replacement or a patch binds, a patch with a title or an author.
  pub change_handler-Foreign :
      (c : Context) (change : Change c) (w : W) (f : Foreign c w)
      → change_handler change c w
        ≡ (write_error c 403 (lit "forbidden"), (store.first_by_id f.id w).1)
  unfolding update_book patch_book_handler Books.delete_book replace_book patch_book
      Service.delete_book delete_by
  change_handler-Foreign c (replaces title author body) w f =
      rw (f.acting, f.asked, body, f.found, f.other_owner) refl
  change_handler-Foreign c (patches_title title author body) w f =
      rw (f.acting, f.asked, body, f.found, f.other_owner) refl
  change_handler-Foreign c (patches_author author body) w f =
      rw (f.acting, f.asked, body, f.found, f.other_owner) refl
  change_handler-Foreign c deletes w f = rw (f.acting, f.asked, f.found, f.other_owner) refl
