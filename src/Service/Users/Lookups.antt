-- ===== src/Service/Users/Lookups.antt =====
-- pkg/repository/refresh_sqlc.go and user_sqlc.go: the lookups of `Refresh`.
use golang_rest_api_template.Base.{
  sym, ap, none, find, ◌==◌, ==_iff, List, [], ◌∷◌, Option, ℕ, ◌≡◌, ◌∙◌, Bytes, Bool-cases,
  Option-cases, inl, inr, arith, some,
}
use golang_rest_api_template.Result.{ok, ok-injective, Keeps, map_err_ok}
use golang_rest_api_template.Errors.{map_not_found}
use golang_rest_api_template.Models.{RefreshToken, User}
use golang_rest_api_template.Repository.Tables.{one, get_refresh_token_by_hash, get_user_by_id}
use golang_rest_api_template.Repository.Tables.Tokens.{row_of}
use golang_rest_api_template.Repository.Driver.{Driver, DriverLaws, exec}
use golang_rest_api_template.Repository.Driver.Laws.{exec_ok, exec_cases}
use mathlib.Core.Option.{some-injective}
use golang_rest_api_template.Repository.Books.{to_int64}
use golang_rest_api_template.Repository.Users.{find_by_id}
use golang_rest_api_template.Repository.RefreshTokens.{find_by_hash}

module _ {W : Type 0} (d : Driver W) (laws : DriverLaws d) where
  -- A lookup that succeeds returns the row of the table, and changes nothing.
  pub find_by_hash_ok :
      (h : Bytes) (w : W) (row : RefreshToken)
      → (find_by_hash d h w).0 ≡ ok row
      → (row_of h (d.tables w) ≡ some row) × (d.tables (find_by_hash d h w).1 ≡ d.tables w)
  unfolding find_by_hash get_refresh_token_by_hash
  find_by_hash_ok h w row e =
      let (got, left) =
        exec_ok d laws (get_refresh_token_by_hash h) w row
          (map_err_ok map_not_found (exec d (get_refresh_token_by_hash h)) w row e) in
      (ground (arith, Option-cases (row_of h (d.tables w))), left)

  find-id :
      (id : ℕ) (rows : List User) (u : User) → find (λ x. x.id == id) rows ≡ some u → u.id ≡ id
  find-id id [] u e = absurd (cc e)
  find-id id (x ∷ rows) u e = elim (Bool-cases (x.id == id)) [
    | inl hit ↦
        let same = some-injective _ _ (rw hit at e) in
        ap (λ y. y.id) (sym same) ∙ (==_iff x.id id).0 hit
    | inr miss ↦ find-id id rows u (rw miss at e)
  ]

  found_lem : (o : Option User) (u : User) → one o ≡ ok u → o ≡ some u
  found_lem none u e = absurd (cc e)
  found_lem (some x) u e = ap some (ok-injective e)

  -- The user that a lookup by id returns has that id.
  pub find_by_id_ok :
      (id : ℕ) (w : W) (u : User) → (find_by_id d id w).0 ≡ ok u → u.id ≡ to_int64 id
  unfolding find_by_id get_user_by_id
  find_by_id_ok id w u e =
      let (got, left) =
        exec_ok d laws (get_user_by_id (to_int64 id)) w u
          (map_err_ok map_not_found (exec d (get_user_by_id (to_int64 id))) w u e) in
      find-id (to_int64 id) _ u (found_lem _ u got)

  pub find_by_id-Keeps : (id : ℕ) → Keeps d.tables (find_by_id d id)
  unfolding find_by_id get_user_by_id
  find_by_id-Keeps id w = elim (exec_cases d laws (get_user_by_id _) w) [ inl e ↦ e | inr e ↦ e ]
