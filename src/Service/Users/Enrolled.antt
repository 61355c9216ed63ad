-- ===== src/Service/Users/Enrolled.antt =====
-- pkg/service/user_service.go: `Register` over the SQL store, and a `Login` of that user.
use golang_rest_api_template.Base.{
  ℕ, ◌≡◌, refl, sym, ap, ◌∙◌, inl, inr, true, false, Option, none, some, List, [], ◌∷◌, ◌++◌, ltb,
  Bool-cases, length, find, any, Bytes, ◌=s◌, =s_refl,
}
use golang_rest_api_template.Errors.{Error}
use golang_rest_api_template.Result.{◌>>◌, pure, Io}
use golang_rest_api_template.Platform.{Platform}
use golang_rest_api_template.Result.{ok, bind_ok, map_err_ok, ok-injective, map_err, Io}
use golang_rest_api_template.Models.{User}
use golang_rest_api_template.Auth.Roles.{role_user}
use golang_rest_api_template.Auth.Denylist.{TokenDenylist}
use golang_rest_api_template.Auth.Passwords.{hash_password, bcrypt_cost_for_password_hashing}
use golang_rest_api_template.Repository.Persistence.{RefreshTokenPersistence}
use golang_rest_api_template.Repository.Driver.{Driver, DriverLaws, exec}
use golang_rest_api_template.Repository.Driver.Laws.{exec_ok, exec_no_fault}
use golang_rest_api_template.Repository.Tables.{Tables, create_user, get_user_by_username}
use golang_rest_api_template.Repository.Users
use golang_rest_api_template.Repository.Users.{user_store, find_by_username, create_error}
use golang_rest_api_template.Service.Users.{
  login, register, issue_token_pair, hash_error, save_error, new_user,
}

find_last :
    (name : Bytes) (us : List User) (u : User)
    → any (λ v. v.username =s name) us ≡ false
    → (u.username =s name) ≡ true
    → find (λ v. v.username =s name) (us ++ u ∷ []) ≡ some u
find_last name [] u free same = rw same refl
find_last name (v ∷ us) u free same = elim (Bool-cases (v.username =s name)) [
  | inl e ↦ absurd (cc (rw e at free))
  | inr e ↦ rw e (find_last name us u (rw e at free) same)
]

-- The row of a user that was created is found by its name.
pub record IsEnrolled (username password : Bytes) (u : User) (t : Tables) : Type 0 where
  pub found : find (λ v. v.username =s username) t.users.rows ≡ some u
  pub named : u.username ≡ username
  pub plain_role : u.role ≡ role_user
  pub hashed : u.password ≡ password

create_user-IsEnrolled :
    (now : ℕ) (username password : Bytes) (t : Tables) (u : User)
    → (create_user now username password role_user t).0 ≡ ok u
    → IsEnrolled username password u (create_user now username password role_user t).1
unfolding create_user
create_user-IsEnrolled now username password t u e =
    elim (Bool-cases (any (λ v. v.username =s username) t.users.rows)) [
      | inl taken ↦ absurd (cc (rw taken at e))
      | inr free ↦
          let same = ok-injective (rw free at e) in
          rw free (record {
            found = find_last username t.users.rows _ free (=s_refl username) ∙ ap some same;
            named = ap (λ v. v.username) (sym same);
            plain_role = ap (λ v. v.role) (sym same);
            hashed = ap (λ v. v.password) (sym same);
          })
    ]

module _ {W : Type 0} (p : Platform W) (d : Driver W) (laws : DriverLaws d)
    (refresh : Option (RefreshTokenPersistence W)) (denylist : TokenDenylist W) where
  create-IsEnrolled :
      (username h : Bytes) (v : User) (w : W) (u : User)
      → v.username ≡ username
      → v.password ≡ h
      → v.role ≡ role_user
      → (Users.create d v w).0 ≡ ok u
      → IsEnrolled username h u (d.tables (Users.create d v w).1)
  unfolding Users.create
  create-IsEnrolled username h v w u a b c e =
      let stmt = create_user (d.now w) v.username v.password v.role in
      let (done, left) = exec_ok d laws stmt w u (map_err_ok create_error (exec d stmt) w u e) in
      rw left (
        rw (a, b, c)
          (create_user-IsEnrolled (d.now w) username h (d.tables w) u (rw (a, b, c) at done)))

  abbrev sql_register : Bytes → Bytes → Io W Error (Unit {0})
  sql_register = register p (user_store d) refresh denylist

  abbrev save : Bytes → Bytes → Io W Error User
  save username h =
      map_err (save_error p (user_store d) refresh denylist)
        (Users.create d (new_user p (user_store d) refresh denylist username h))

  register-IsEnrolled :
      (username password : Bytes) (w : W)
      → (sql_register username password w).0 ≡ ok tt
      → (h : Bytes) × (u : User) × ((p.bcrypt_generate password
            (bcrypt_cost_for_password_hashing p)
            w).0
          ≡ ok h)
        × IsEnrolled username h u (d.tables (sql_register username password w).1)
  unfolding register hash_password
  register-IsEnrolled username password w e = elim (Bool-cases (ltb 72 (length password))) [
    | inl long ↦ absurd (cc (rw long at e))
    | inr short ↦ rw short (
        let hash =
          map_err (hash_error p (user_store d) refresh denylist) (hash_password p password) in
        let (h, made, saved, all) =
          bind_ok hash (λ g. save username g >> pure tt) w tt (rw short at e) in
        let (u, kept, _, rest) = bind_ok (save username h) (λ v. pure tt) (hash w).1 tt saved in
        (
          h,
          u,
          map_err_ok (hash_error p (user_store d) refresh denylist) (hash_password p password) w h
              made,
          rw (all, rest)
              (create-IsEnrolled username h _ (hash w).1 u refl refl refl (
                map_err_ok (save_error p (user_store d) refresh denylist) (Users.create d _)
                  (hash w).1 u kept)),
        ))
  ]

  -- After a `Register` that succeeded, `Login` with the same name and password, in a world with
  -- the tables that it left, goes on to issue a token pair for a user of that name with the role
  -- user. Conditions: bcrypt accepts a password against the hash it has made of it; the driver
  -- keeps its laws and does not fail the lookup of the login.
  pub register_then_login :
      (username password : Bytes) (w w' : W)
      → ((cost : ℕ) (v : W) (h : Bytes)
          → (p.bcrypt_generate password cost v).0 ≡ ok h
          → p.bcrypt_compare h password ≡ true)
      → (sql_register username password w).0 ≡ ok tt
      → d.tables w' ≡ d.tables (sql_register username password w).1
      → (d.fault w').0 ≡ none
      → (u : User) × (u.username ≡ username)
        × (u.role ≡ role_user)
        × (login p (user_store d) refresh denylist username password w'
            ≡ issue_token_pair p
                (user_store d)
                refresh
                denylist
                u
                (find_by_username d username w').1)
  unfolding login find_by_username get_user_by_username
  register_then_login username password w w' checks done same fine =
      let (h, u, made, enrolled) = register-IsEnrolled username password w done in
      let stmt = get_user_by_username username in
      let (got, left) = exec_no_fault d laws stmt w' fine in
      let row : (exec d stmt w').0 ≡ ok u = got ∙ rw (same, enrolled.found) refl in
      (u, enrolled.named, enrolled.plain_role, rw (row, enrolled.hashed, checks _ w h made) refl)
