-- ===== src/Examples/Stores.antt =====
-- The stores and the services over the world in memory.
use golang_rest_api_template.Auth.Passwords.{hash_password}
use golang_rest_api_template.Repository.Tables.Tokens.{row_of}
use golang_rest_api_template.Models.{Book, RefreshToken, User}
use golang_rest_api_template.Base.{
  ℕ, ◌≡◌, refl, ◌↔◌, true, false, none, some, [], ◌++◌, Bytes, lit, to_lower, hex_encode,
}
use golang_rest_api_template.Errors.{sentinel, refresh_reuse}
use golang_rest_api_template.Result.{ok, err, is_ok, ok-injective}
use golang_rest_api_template.Examples.World.{
  World, memory_driver, memory_laws, platform, platform-Frame,
}
use golang_rest_api_template.Examples.Tokens
use golang_rest_api_template.Repository.Users
use golang_rest_api_template.Repository.Driver.{exec}
use golang_rest_api_template.Repository.Tables.{
  revoke_refresh_family, get_refresh_token_by_hash, create_user,
}
use golang_rest_api_template.Repository.RefreshTokens.{find_by_hash, revoke_family}
use golang_rest_api_template.Repository.RefreshTokens.History.{after_calls}
use golang_rest_api_template.Repository.ListQuery.{like_argument}
use golang_rest_api_template.Repository.ListQuery.Like.{IsLike, like_argument_iff}
use golang_rest_api_template.Service.Users.{
  refresh_tokens, refresh_with, present_row, revoke_reused, register, login, issue_token_pair,
}
use golang_rest_api_template.Service.Users.Rotation.{refresh_sql}
use golang_rest_api_template.Service.Users.Family.{family_stays_revoked}
use golang_rest_api_template.Service.Users.Enrolled.{register_then_login}
use golang_rest_api_template.Auth.Roles.{role_user}
use golang_rest_api_template.Auth.Tokens.{hash_refresh_token}

like_argument_iff_example :
    IsLike false (like_argument (lit "A%")) (lit "xa%y")
    ↔ ((before : Bytes) × (after : Bytes) × (lit "xa%y" ≡ before ++ (lit "a%" ++ after)))
unfolding to_lower
like_argument_iff_example = like_argument_iff (lit "A%") (lit "xa%y")

abbrev emma : Book
emma = record {
  id = 0;
  owner_id = 7;
  title = lit "Emma";
  author = lit "Austen";
  created_at = 0;
  updated_at = 0;
}

abbrev reused : World
reused =
    (refresh_sql platform memory_driver memory_laws platform-Frame Tokens.no_denylist (lit "t")
      Tokens.after_use).1

abbrev revoked_row : RefreshToken
revoked_row = record Tokens.used_token { revoked_at = some 1000; updated_at = 1000 }

reuse_answer :
    (refresh_sql platform memory_driver memory_laws platform-Frame Tokens.no_denylist
      (lit "t")
      Tokens.after_use).0
    ≡ err (sentinel refresh_reuse)
unfolding refresh_tokens refresh_with find_by_hash exec get_refresh_token_by_hash hash_refresh_token
    hex_encode present_row revoke_reused revoke_family revoke_refresh_family
reuse_answer = refl

reused_row : row_of (hash_refresh_token platform (lit "t")) reused.tables ≡ some revoked_row
unfolding refresh_tokens refresh_with find_by_hash exec get_refresh_token_by_hash hash_refresh_token
    hex_encode present_row revoke_reused revoke_family revoke_refresh_family
reused_row = refl

family_stays_revoked_example :
    is_ok
      (refresh_sql platform memory_driver memory_laws platform-Frame Tokens.no_denylist
        (lit "t")
        (after_calls memory_driver [] reused)).0
    ≡ false
family_stays_revoked_example =
    family_stays_revoked platform memory_driver memory_laws platform-Frame Tokens.no_denylist
      (lit "t") (lit "t") Tokens.used_token revoked_row [] Tokens.after_use
      (after_calls memory_driver [] reused) refl Tokens.used_token_found refl refl
      Tokens.clock_in_time reuse_answer reused_row refl refl

abbrev registered : World
registered =
    (register platform (Users.user_store memory_driver) none Tokens.no_denylist (lit "bob")
      (lit "secret") Tokens.start).1

register_works :
    (register platform
      (Users.user_store memory_driver)
      none
      Tokens.no_denylist
      (lit "bob")
      (lit "secret")
      Tokens.start).0
    ≡ ok tt
unfolding register hash_password Users.create exec create_user
register_works = refl

bcrypt_checks :
    (cost : ℕ) (v : World) (h : Bytes)
    → (platform.bcrypt_generate (lit "secret") cost v).0 ≡ ok h
    → platform.bcrypt_compare h (lit "secret") ≡ true
bcrypt_checks cost v h e = rw⁻¹ (ok-injective e) refl

register_then_login_example :
    (u : User) × (u.username ≡ lit "bob")
    × (u.role ≡ role_user)
    × (login platform
          (Users.user_store memory_driver)
          none
          Tokens.no_denylist
          (lit "bob")
          (lit "secret")
          registered
        ≡ issue_token_pair platform
            (Users.user_store memory_driver)
            none
            Tokens.no_denylist
            u
            (Users.find_by_username memory_driver (lit "bob") registered).1)
register_then_login_example =
    register_then_login platform memory_driver memory_laws none Tokens.no_denylist (lit "bob")
      (lit "secret") Tokens.start registered bcrypt_checks register_works refl refl
