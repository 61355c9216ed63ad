-- ===== src/Api/Users.antt =====
-- pkg/api/user.go: the handlers of the authentication routes.
use golang_rest_api_template.Base.{ℕ, ◌||◌, Option, none, some, [], if◌then◌else◌, Bytes, lit}
use golang_rest_api_template.Result.{Result, ok, err}
use golang_rest_api_template.Errors.{
  Error, is, invalid_login, invalid_refresh, refresh_reuse, register_conflict, password_too_long,
}
use golang_rest_api_template.Platform.{Platform}
use golang_rest_api_template.Http.{
  Context, Response, Handler, write_error, ok_response, created_response, Payload, text, tokens,
  admin_me,
}
use golang_rest_api_template.Repository.Persistence.{UserPersistence, RefreshTokenPersistence}
use golang_rest_api_template.Auth.Denylist.{TokenDenylist}
use golang_rest_api_template.Service.Users.{TokenPair, login, refresh_tokens, logout, register}
use golang_rest_api_template.Api.Books.{bind}

-- What `ShouldBindJSON` makes of the body of a logout; an empty body is `io.EOF`.
pub data LogoutBody : Type 0 where
  eof : LogoutBody
  malformed : Bytes → LogoutBody
  given : (refresh_token : Bytes) → LogoutBody

pub record UserBinding : Type 0 where
  pub login_user : Bytes → Result Bytes (Bytes × Bytes)
  pub refresh_request : Bytes → Result Bytes Bytes
  pub logout_request : Context → LogoutBody

abbrev token_pair_body : TokenPair → Payload
token_pair_body t = tokens t.access_token t.refresh_token t.expires_in

-- `v, _ := c.Get(key)` with a type assertion: the zero value where the key is not set.
abbrev or_zero : Option ℕ → ℕ
or_zero none = 0
or_zero (some n) = n

abbrev or_nothing : Option Bytes → Bytes
or_nothing none = []
or_nothing (some s) = s

module _ {W : Type 0} (p : Platform W) (users : UserPersistence W)
    (refresh : Option (RefreshTokenPersistence W)) (denylist : TokenDenylist W)
    (binding : UserBinding) where
  abbrev answer :
      {A : Type 0} → (Error → Response) → (A → Response) → Result Error A × W → Response × W
  answer failed done (ok a, w) = (done a, w)
  answer failed done (err e, w) = (failed e, w)

  abbrev bound : {A : Type 0} → Context → Result Bytes A → (A → W → Response × W) → W → Response × W
  bound c (ok a) k w = k a w
  bound c (err message) k w = (write_error c 400 message, w)

  abbrev internal : Context → Response
  internal c = write_error c 500 (lit "Internal Server Error")

  unfoldable pub login_handler : Handler W
  login_handler c = bound c (bind binding.login_user c) λ (username, password) w.
      answer
        (λ e.
          if is e invalid_login
          then write_error c 401 (lit "Invalid username or password")
          else internal c)
        (λ t. ok_response c (token_pair_body t))
        (login p users refresh denylist username password w)

  unfoldable pub refresh_handler : Handler W
  refresh_handler c = bound c (bind binding.refresh_request c) λ plaintext w.
      answer
        (λ e.
          if is e invalid_refresh || is e refresh_reuse
          then write_error c 401 (lit "Invalid refresh token")
          else internal c)
        (λ t. ok_response c (token_pair_body t))
        (refresh_tokens p users refresh denylist plaintext w)

  logout_given : Context → Bytes → W → Response × W
  logout_given c refresh_token w =
      answer (λ e. internal c) (λ _. ok_response c (text (lit "Logged out")))
        (logout p users refresh denylist (or_zero c.user_id) refresh_token (or_nothing c.jti)
          c.access_exp w)

  unfoldable pub logout_handler : Handler W
  unfolding logout_given
  logout_handler c w = elim (binding.logout_request c) [
    | eof ↦ logout_given c [] w
    | malformed message ↦ (write_error c 400 message, w)
    | given refresh_token ↦ logout_given c refresh_token w
  ]

  abbrev register_error : Context → Error → Response
  register_error c e =
      if is e register_conflict
      then write_error c 409 (lit "username already taken")
      else if is e password_too_long
      then write_error c 400 (lit "password must be at most 72 bytes")
      else write_error c 500 (lit "Could not save user")

  unfoldable pub register_handler : Handler W
  register_handler c = bound c (bind binding.login_user c) λ (username, password) w.
      answer (register_error c) (λ _. created_response c (text (lit "Registration successful")))
        (register p users refresh denylist username password w)

  unfoldable pub admin_me_handler : Handler W
  admin_me_handler c w =
      (ok_response c (admin_me (or_nothing c.username) (or_zero c.user_id) (or_nothing c.role)), w)
