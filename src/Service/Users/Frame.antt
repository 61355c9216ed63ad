-- ===== src/Service/Users/Frame.antt =====
-- What the service relies on outside the repository: the clock, the random source and bcrypt do
-- not write to the database.
use golang_rest_api_template.Errors.{cause}
use golang_rest_api_template.Base.{ℕ, ◌≡◌, refl, Bytes, arith}
use golang_rest_api_template.Result.{Keeps, bind-Keeps, map_err}
use golang_rest_api_template.Platform.{Platform}
use golang_rest_api_template.Repository.Driver.{Driver}
use golang_rest_api_template.Auth.Tokens.{new_opaque_token}
use golang_rest_api_template.Auth.Keys.{generate_token, sign_claims}

pub record Frame {W : Type 0} (p : Platform W) (d : Driver W) : Type 0 where
  pub time_keeps : (w : W) → d.tables (p.time_now w).1 ≡ d.tables w
  pub rand_keeps : (n : ℕ) (w : W) → d.tables (p.rand_read n w).1 ≡ d.tables w
  pub bcrypt_keeps :
      (password : Bytes) (cost : ℕ) (w : W)
      → d.tables (p.bcrypt_generate password cost w).1 ≡ d.tables w

module _ {W : Type 0} (p : Platform W) (d : Driver W) (frame : Frame p d) where
  pub new_opaque_token-Keeps : Keeps d.tables (new_opaque_token p)
  unfolding new_opaque_token
  new_opaque_token-Keeps =
      bind-Keeps d.tables (map_err cause (p.rand_read 32)) _ (frame.rand_keeps 32) (λ b w. refl)

  sign_claims-Keeps :
      (username : Bytes) (user_id : ℕ) (role : Bytes)
      → Keeps d.tables (sign_claims p username user_id role)
  unfolding sign_claims
  sign_claims-Keeps username user_id role =
      bind-Keeps d.tables (new_opaque_token p) _ new_opaque_token-Keeps λ jti w. frame.time_keeps w

  pub generate_token-Keeps :
      (username : Bytes) (user_id : ℕ) (role : Bytes)
      → Keeps d.tables (generate_token p username user_id role)
  unfolding generate_token
  generate_token-Keeps username user_id role w =
      ground (arith, sign_claims-Keeps username user_id role w)
