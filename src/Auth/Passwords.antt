-- ===== src/Auth/Passwords.antt =====
-- pkg/auth/auth.go: password hashing and the bcrypt work factor.
pub mod Cost
use golang_rest_api_template.Base.{
  ℕ, Bytes, lit, ltb, if◌then◌else◌, ◌||◌, is_empty, trim_space, Option, none, some,
}
use golang_rest_api_template.Base.Integers.{ℤ, pos, negsuc, atoi}
use golang_rest_api_template.Result.{Io}
use golang_rest_api_template.Errors.{Cause}
use golang_rest_api_template.Platform.{Platform}

abbrev pub default_bcrypt_cost : ℕ
default_bcrypt_cost = 12

-- The code's own floor; `bcrypt.MinCost` is 4 and `bcrypt.MaxCost` is 31.
abbrev pub min_bcrypt_cost : ℕ
min_bcrypt_cost = 10

unfoldable cost_of : Option ℤ → ℕ
cost_of none = default_bcrypt_cost
cost_of (some (negsuc n)) = default_bcrypt_cost
cost_of (some (pos c)) =
    if ltb c 4 || ltb 31 c
    then default_bcrypt_cost
    else if ltb c min_bcrypt_cost
    then min_bcrypt_cost
    else c

module _ {W : Type 0} (p : Platform W) where
  unfoldable pub bcrypt_cost_for_password_hashing : ℕ
  unfolding cost_of
  bcrypt_cost_for_password_hashing =
      let s = trim_space (p.getenv (lit "BCRYPT_COST")) in
      if is_empty s then default_bcrypt_cost else cost_of (atoi s)

  unfoldable pub hash_password : Bytes → Io W Cause Bytes
  unfolding bcrypt_cost_for_password_hashing
  hash_password password = p.bcrypt_generate password bcrypt_cost_for_password_hashing
