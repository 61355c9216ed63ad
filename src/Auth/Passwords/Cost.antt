-- ===== src/Auth/Passwords/Cost.antt =====
-- pkg/auth/auth.go: the range of `bcryptCostForPasswordHashing`.
use golang_rest_api_template.Platform.{Platform}
use golang_rest_api_template.Base.{
  ◌≤◌, inl, inr, Option, none, some, arith, Bool-cases, lit, is_empty, trim_space,
}
use golang_rest_api_template.Base.Integers.{ℤ, pos, negsuc, atoi}
use golang_rest_api_template.Auth.Passwords.{
  cost_of, bcrypt_cost_for_password_hashing, min_bcrypt_cost,
}

cost_of-bounds : (o : Option ℤ) → (min_bcrypt_cost ≤ cost_of o) × (cost_of o ≤ 31)
unfolding cost_of
cost_of-bounds none = (omega arith, omega arith)
cost_of-bounds (some (negsuc n)) = (omega arith, omega arith)
cost_of-bounds (some (pos c)) = (ground arith, ground arith)

-- The bcrypt cost is between 10 and 31, whatever the environment says.
pub bcrypt_cost_for_password_hashing-bounds :
    {W : Type 0} (p : Platform W)
    → (min_bcrypt_cost ≤ bcrypt_cost_for_password_hashing p)
      × (bcrypt_cost_for_password_hashing p ≤ 31)
unfolding bcrypt_cost_for_password_hashing
bcrypt_cost_for_password_hashing-bounds p =
    elim (Bool-cases (is_empty (trim_space (p.getenv (lit "BCRYPT_COST"))))) [
      | inl unset ↦ rw unset (omega arith, omega arith)
      | inr set ↦ rw set (cost_of-bounds (atoi (trim_space (p.getenv (lit "BCRYPT_COST")))))
    ]
