-- ===== src/Repository/Users/Unique.antt =====
-- pkg/repository/user_sqlc.go: the names of the users.
use golang_rest_api_template.Base.{
  ℕ, ◌≡◌, inl, inr, false, List, [], ◌∷◌, ◌++◌, Bool-cases, any, All, All-append, Bytes, ◌=s◌,
  =s_sound, =s_refl,
}
use golang_rest_api_template.Repository.Users
use golang_rest_api_template.Repository.Tables.{Tables, create_user}
use golang_rest_api_template.Repository.Driver.{Driver, DriverLaws}
use golang_rest_api_template.Repository.Driver.Laws.{exec-respects}
use golang_rest_api_template.Models.{User}

-- No user of the list has the name.
abbrev IsFree : Bytes → List User → Type 0
IsFree name us = All (λ u. (u.username =s name) ≡ false) us

-- No two users of the table have the same name.
abbrev pub IsUnique : List User → Type 0
IsUnique [] = Unit
IsUnique (u ∷ us) = IsFree u.username us × IsUnique us

any-IsFree :
    (name : Bytes) (us : List User) → any (λ u. u.username =s name) us ≡ false → IsFree name us
any-IsFree name [] h = tt
any-IsFree name (u ∷ us) h = elim (Bool-cases (u.username =s name)) [
  | inl same ↦ absurd (cc (rw same at h))
  | inr other ↦ (other, any-IsFree name us (rw other at h))
]

=s-sym : (s t : Bytes) → (s =s t) ≡ false → (t =s s) ≡ false
=s-sym s t h = elim (Bool-cases (t =s s)) [
  | inr other ↦ other
  | inl same ↦ absurd (cc (rw (=s_sound t s same, =s_refl s) at h))
]

append-IsUnique :
    (us : List User) (v : User) → IsUnique us → IsFree v.username us → IsUnique (us ++ v ∷ [])
append-IsUnique [] v h free = (tt, tt)
append-IsUnique (u ∷ us) v (apart, h) (other, free) = (
  All-append (λ x. (x.username =s u.username) ≡ false) us (v ∷ []) apart
      (=s-sym u.username v.username other, tt),
  append-IsUnique us v h free,
)

create_user-IsUnique :
    (now : ℕ) (username password role : Bytes) (t : Tables)
    → IsUnique t.users.rows
    → IsUnique (create_user now username password role t).1.users.rows
unfolding create_user
create_user-IsUnique now username password role t h =
    elim (Bool-cases (any (λ u. u.username =s username) t.users.rows)) [
      | inl taken ↦ rw taken h
      | inr free ↦
          rw free (append-IsUnique t.users.rows _ h (any-IsFree username t.users.rows free))
    ]

module _ {W : Type 0} (d : Driver W) (laws : DriverLaws d) where
  -- If no two users have the same name, no two have after `Create` of any user, whether it
  -- succeeds or fails. Condition: the driver keeps its laws, whichever of its calls it fails.
  pub create-IsUnique :
      (user : User) (w : W)
      → IsUnique (d.tables w).users.rows
      → IsUnique (d.tables (Users.create d user w).1).users.rows
  unfolding Users.create
  create-IsUnique user w =
      let stmt = create_user (d.now w) user.username user.password user.role in
      exec-respects d laws stmt (λ t t'. IsUnique t.users.rows → IsUnique t'.users.rows) (λ t h. h)
        (create_user-IsUnique (d.now w) user.username user.password user.role) w
