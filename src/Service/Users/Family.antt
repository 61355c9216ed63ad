-- ===== src/Service/Users/Family.antt =====
-- pkg/service/user_service.go: the tokens of a family in which a reuse was detected.
use golang_rest_api_template.Auth.Tokens.{hash_refresh_token}
use golang_rest_api_template.Models.{RefreshToken}
use golang_rest_api_template.Service.Users.{TokenPair}
use golang_rest_api_template.Auth.Denylist.{TokenDenylist}
use golang_rest_api_template.Service.Users.Frame.{Frame}
use golang_rest_api_template.Repository.Driver.{Driver, DriverLaws}
use golang_rest_api_template.Platform.{Platform}
use golang_rest_api_template.Base.{
  ◌≤◌, ◌≡◌, sym, ap, ◌∙◌, subst, inl, inr, Bool, true, false, some, List, [], ◌∷◌, Bool-cases, find,
  All, Bytes, =s_refl, is_empty,
}
use mathlib.Core.Option.{some-injective}
use golang_rest_api_template.Service.Users.Rotation.{Succession, refresh_sql, refresh_ok}
use golang_rest_api_template.Service.Users.Reuse.{Reuse, refresh_tokens-Reuse, IsRevoked}
use golang_rest_api_template.Repository.Tables.Tokens.{Evolves, row_of}
use golang_rest_api_template.Repository.Tables.{Tables, is_null}
use golang_rest_api_template.Repository.RefreshTokens.{find_by_hash}
use golang_rest_api_template.Repository.RefreshTokens.History.{
  StoreCall, after_calls, after_calls-Evolves,
}
use golang_rest_api_template.Errors.{Error, sentinel, refresh_reuse}
use golang_rest_api_template.Result.{Result, ok, err, is_ok, never_ok}

All-find {ℓ κ} :
    {A : Type ℓ} (P : A → Type κ) (q : A → Bool) (xs : List A) (x : A)
    → All P xs
    → find q xs ≡ some x
    → P x
All-find P q [] x h e = absurd (cc)
All-find P q (y ∷ xs) x (p, h) e = elim (Bool-cases (q y)) [
  | inl hit ↦ subst P (some-injective y x (rw hit at e)) p
  | inr miss ↦ All-find P q xs x h (rw miss at e)
]

module _ {W : Type 0} (p : Platform W) (d : Driver W) (laws : DriverLaws d) (frame : Frame p d)
    (denylist : TokenDenylist W) where
  -- A row that is marked as revoked admits no succession, nor does what it ages to.
  no-Succession :
      (other : Bytes) (pair : TokenPair) (r : RefreshToken) (t u u' : Tables)
      → row_of (hash_refresh_token p other) t ≡ some r
      → is_null r.revoked_at ≡ false
      → Evolves t u
      → Succession p d laws frame denylist other pair u u'
      → ⊥
  no-Succession other pair r t u u' found marked evolves s =
      let (r', found', aged) = evolves.ages (hash_refresh_token p other) r found in
      let same : s.row ≡ r' = some-injective s.row r' (sym s.found ∙ found') in
      let kept = aged.stays_revoked marked in
      let fresh = s.not_revoked in
      absurd (cc (ap (λ x. is_null x.revoked_at) same, ap is_null kept, fresh, marked))

  Reuse-IsRevoked :
      (family_id : Bytes) (r : Result Error TokenPair × W)
      → Reuse p d laws denylist family_id r
      → r.0 ≡ err (sentinel refresh_reuse)
      → IsRevoked family_id (d.tables r.1)
  Reuse-IsRevoked family_id r (Reuse.detected e h) same = h
  Reuse-IsRevoked family_id r (Reuse.refused x e) same = absurd (cc (e, same))

  -- After a `Refresh` that answered `ErrRefreshReuse` for the plaintext of a consumed row,
  -- `Refresh` with the plaintext of any row of the same family that is stored then fails in every
  -- world with the tables that any sequence of calls of the refresh-token store leaves.
  -- Conditions: the plaintext is not empty and names a row that was neither revoked nor expired;
  -- the driver keeps its laws, whichever of its calls it fails; the clock, the random source and
  -- bcrypt do not write to the database.
  pub family_stays_revoked :
      (plaintext other : Bytes) (row r : RefreshToken) (cs : List StoreCall) (w w' : W)
      → is_empty plaintext ≡ false
      → (find_by_hash d (hash_refresh_token p plaintext) w).0 ≡ ok row
      → is_null row.revoked_at ≡ true
      → is_null row.consumed_at ≡ false
      → (p.time_now (find_by_hash d (hash_refresh_token p plaintext) w).1).0 ≤ row.expires_at
      → let (answer, w1) = refresh_sql p d laws frame denylist plaintext w in
        answer ≡ err (sentinel refresh_reuse)
        → row_of (hash_refresh_token p other) (d.tables w1) ≡ some r
        → r.family_id ≡ row.family_id
        → d.tables w' ≡ d.tables (after_calls d cs w1)
        → is_ok (refresh_sql p d laws frame denylist other w').0 ≡ false
  family_stays_revoked plaintext other row r cs w w' given found active consumed in_time reused
        there kin later =
      let ends =
        refresh_tokens-Reuse p d laws denylist plaintext row w given found active consumed
          in_time in
      let all = Reuse-IsRevoked row.family_id _ ends reused in
      let marked = All-find _ _ _ r all there (rw kin (=s_refl row.family_id)) in
      never_ok _ (λ pair e.
        no-Succession other pair r _ _ _ there marked
          (subst (Evolves _) (sym later) (after_calls-Evolves d laws cs _))
          (refresh_ok p d laws frame denylist other w' pair e))
