-- ===== src/Service/Users/Reuse.antt =====
-- pkg/service/user_service.go: `Refresh` of a token that was consumed before.
use golang_rest_api_template.Auth.Tokens.{hash_refresh_token}
use golang_rest_api_template.Auth.Denylist.{TokenDenylist}
use golang_rest_api_template.Platform.{Platform}
use golang_rest_api_template.Base.{
  ℕ, ◌≤◌, ◌≡◌, refl, sym, subst, inl, inr, true, false, ◌&&◌, some, List, [], ◌∷◌, arith, ltb,
  Bool-cases, All, Bytes, ◌=s◌, is_empty,
}
use golang_rest_api_template.Errors.{cause, Error, sentinel, refresh_reuse, wrap, refresh_persist}
use golang_rest_api_template.Models.{RefreshToken}
use golang_rest_api_template.Repository.Tables.{
  Tables, is_null, update_where, revoke_refresh_family,
}
use golang_rest_api_template.Repository.RefreshTokens.{revoke_family, find_by_hash, refresh_store}
use golang_rest_api_template.Repository.Users.{user_store}
use golang_rest_api_template.Service.Users.{
  TokenPair, refresh_tokens, refresh_with, present_row, revoke_reused,
}
use golang_rest_api_template.Repository.Driver.{Driver, DriverLaws, exec}
use golang_rest_api_template.Repository.Driver.Laws.{exec_ok}
use golang_rest_api_template.Result.{Result, ok, err, Io, Result-cases, map_err_ok}

-- Every row of the family is marked as revoked.
abbrev pub IsRevoked : Bytes → Tables → Type 0
IsRevoked family_id t =
    All (λ r. (r.family_id =s family_id) ≡ true → is_null r.revoked_at ≡ false) t.tokens.rows

update-IsRevoked :
    (now at : ℕ) (family_id : Bytes) (rows : List RefreshToken)
    → All
        (λ r. (r.family_id =s family_id) ≡ true → is_null r.revoked_at ≡ false)
        (update_where
          (λ r. (r.family_id =s family_id) && is_null r.revoked_at)
          (λ r. record r { revoked_at = some at; updated_at = now })
          rows)
update-IsRevoked now at family_id [] = tt
update-IsRevoked now at family_id (r ∷ rows) = (
  elim (Bool-cases (r.family_id =s family_id)) [
    | inl same ↦ elim (Bool-cases (is_null r.revoked_at)) [
      | inl fresh ↦ rw (same, fresh) λ h. refl
      | inr marked ↦ rw (same, marked) λ h. marked
    ]
    | inr other ↦ rw other λ h. absurd (cc (other, h))
  ],
  update-IsRevoked now at family_id rows,
)

module _ {W : Type 0} (d : Driver W) (laws : DriverLaws d) where
  revoke_family-IsRevoked :
      (family_id : Bytes) (at : ℕ) (w : W)
      → (revoke_family d family_id at w).0 ≡ ok tt
      → IsRevoked family_id (d.tables (revoke_family d family_id at w).1)
  unfolding revoke_family revoke_refresh_family
  revoke_family-IsRevoked family_id at w h =
      let stmt = revoke_refresh_family (d.now w) family_id at in
      let done = exec_ok d laws stmt w tt (map_err_ok cause (exec d stmt) w tt h) in
      subst (IsRevoked family_id) (sym done.1)
        (update-IsRevoked (d.now w) at family_id (d.tables w).tokens.rows)

module _ {W : Type 0} (p : Platform W) (d : Driver W) (laws : DriverLaws d)
    (denylist : TokenDenylist W) where
  abbrev sql_refresh : Bytes → Io W Error TokenPair
  sql_refresh = refresh_tokens p (user_store d) (some (refresh_store d)) denylist

  -- The two ends of a reuse: the family is revoked, or the database has refused to do so.
  pub data Reuse (family_id : Bytes) (r : Result Error TokenPair × W) : Type 0 where
    detected :
        r.0 ≡ err (sentinel refresh_reuse) → IsRevoked family_id (d.tables r.1) → Reuse family_id r
    refused : (e : Error) → r.0 ≡ err (wrap refresh_persist e) → Reuse family_id r

  revoke_reused-Reuse :
      (family_id : Bytes) (at : ℕ) (w : W)
      → Reuse family_id (
          revoke_reused p
            (user_store d)
            (some (refresh_store d))
            denylist
            (refresh_store d)
            family_id
            at
            w)
  unfolding revoke_reused
  revoke_reused-Reuse family_id at w = elim (Result-cases (revoke_family d family_id at w).0) [
    | inl (a, e) ↦ detected (rw e refl) (rw e (revoke_family-IsRevoked d laws family_id at w e))
    | inr (x, e) ↦ refused x (rw e refl)
  ]

  -- `Refresh` with the plaintext of a row that was consumed, and is neither revoked nor expired,
  -- ends in one of two ways: it answers `ErrRefreshReuse` and every row of the family of the token
  -- is marked as revoked; or it answers an error of the database, wrapped in `ErrRefreshPersist`.
  -- Conditions: the plaintext is not empty, the lookup of the row succeeds, and the driver keeps
  -- its laws.
  pub refresh_tokens-Reuse :
      (plaintext : Bytes) (row : RefreshToken) (w : W)
      → is_empty plaintext ≡ false
      → (find_by_hash d (hash_refresh_token p plaintext) w).0 ≡ ok row
      → is_null row.revoked_at ≡ true
      → is_null row.consumed_at ≡ false
      → (p.time_now (find_by_hash d (hash_refresh_token p plaintext) w).1).0 ≤ row.expires_at
      → Reuse row.family_id (sql_refresh plaintext w)
  unfolding refresh_tokens refresh_with present_row
  refresh_tokens-Reuse plaintext row w given found active consumed in_time =
      let now = (p.time_now (find_by_hash d (hash_refresh_token p plaintext) w).1).0 in
      let open_row : ltb row.expires_at now ≡ false = ground arith in
      rw (given, found, active, consumed, open_row) (revoke_reused-Reuse row.family_id now _)
