-- ===== src/Repository/RefreshTokens/History.antt =====
-- pkg/repository/refresh_sqlc.go: sequences of calls of the refresh-token store, from any number of
-- requests.
use golang_rest_api_template.Base.{ℕ, ◌≡◌, Bytes, inl, inr, List, [], ◌∷◌, arith, false}
use golang_rest_api_template.Result.{ok, is_ok, never_ok}
use golang_rest_api_template.Models.{RefreshToken}
use golang_rest_api_template.Repository.Tables.{get_refresh_token_by_hash}
use golang_rest_api_template.Repository.Tables.Tokens.{
  Evolves, Evolves-refl, Evolves-trans, IsSpent, IsNumbered,
}
use golang_rest_api_template.Repository.Tables.Evolution.{
  create_refresh_token-Evolves, revoke_refresh_family-Evolves, revoke_all_refresh_for_user-Evolves,
}
use golang_rest_api_template.Repository.Driver.{Driver, DriverLaws}
use golang_rest_api_template.Repository.Driver.Laws.{exec-respects}
use golang_rest_api_template.Repository.Books.{to_int64}
use golang_rest_api_template.Repository.RefreshTokens.{
  create, find_by_hash, rotate_atomically, revoke_family, revoke_all_for_user,
}
use golang_rest_api_template.Repository.RefreshTokens.Rotation.{
  Rotated-Evolves, Rotated-IsSpent, rotate_atomically-Rotated,
}

pub data StoreCall : Type 0 where
  creates : RefreshToken → StoreCall
  finds : (token_hash : Bytes) → StoreCall
  rotates : (old_id at : ℕ) → RefreshToken → StoreCall
  revokes_family : (family_id : Bytes) (at : ℕ) → StoreCall
  revokes_user : (user_id at : ℕ) → StoreCall

module _ {W : Type 0} (d : Driver W) where
  -- The world that a call leaves, whether it succeeds or fails.
  pub after_call : StoreCall → W → W
  after_call (creates token) w = (create d token w).1
  after_call (finds token_hash) w = (find_by_hash d token_hash w).1
  after_call (rotates old_id at next) w = (rotate_atomically d old_id at next w).1
  after_call (revokes_family family_id at) w = (revoke_family d family_id at w).1
  after_call (revokes_user user_id at) w = (revoke_all_for_user d user_id at w).1

  unfoldable pub after_calls : List StoreCall → W → W
  after_calls [] w = w
  after_calls (c ∷ cs) w = after_calls cs (after_call c w)

module _ {W : Type 0} (d : Driver W) (laws : DriverLaws d) where
  pub create-Evolves :
      (token : RefreshToken) (w : W) → Evolves (d.tables w) (d.tables (create d token w).1)
  unfolding create
  create-Evolves token w =
      exec-respects d laws _ Evolves Evolves-refl
        (create_refresh_token-Evolves (d.now w) (to_int64 token.user_id) token.token_hash
          token.family_id token.expires_at)
        w

  pub find_by_hash-Evolves :
      (token_hash : Bytes) (w : W) → Evolves (d.tables w) (d.tables (find_by_hash d token_hash w).1)
  unfolding find_by_hash get_refresh_token_by_hash
  find_by_hash-Evolves token_hash w =
      exec-respects d laws (get_refresh_token_by_hash token_hash) Evolves Evolves-refl Evolves-refl
        w

  pub rotate_atomically-Evolves :
      (old_id at : ℕ) (next : RefreshToken) (w : W)
      → Evolves (d.tables w) (d.tables (rotate_atomically d old_id at next w).1)
  rotate_atomically-Evolves old_id at next w =
      elim (rotate_atomically-Rotated d laws old_id at next w).0 [
        | inl e ↦ rw e (Evolves-refl _)
        | inr r ↦ Rotated-Evolves old_id at next _ _ r
      ]

  pub revoke_family-Evolves :
      (family_id : Bytes) (at : ℕ) (w : W)
      → Evolves (d.tables w) (d.tables (revoke_family d family_id at w).1)
  unfolding revoke_family
  revoke_family-Evolves family_id at w =
      exec-respects d laws _ Evolves Evolves-refl
        (revoke_refresh_family-Evolves (d.now w) family_id at) w

  pub revoke_all_for_user-Evolves :
      (user_id at : ℕ) (w : W)
      → Evolves (d.tables w) (d.tables (revoke_all_for_user d user_id at w).1)
  unfolding revoke_all_for_user
  revoke_all_for_user-Evolves user_id at w =
      exec-respects d laws _ Evolves Evolves-refl
        (revoke_all_refresh_for_user-Evolves (d.now w) (to_int64 user_id) at) w

  after_call-Evolves : (c : StoreCall) (w : W) → Evolves (d.tables w) (d.tables (after_call d c w))
  unfolding after_call
  after_call-Evolves (creates token) w = create-Evolves token w
  after_call-Evolves (finds token_hash) w = find_by_hash-Evolves token_hash w
  after_call-Evolves (rotates old_id at next) w = rotate_atomically-Evolves old_id at next w
  after_call-Evolves (revokes_family family_id at) w = revoke_family-Evolves family_id at w
  after_call-Evolves (revokes_user user_id at) w = revoke_all_for_user-Evolves user_id at w

  -- Over any sequence of calls of the refresh-token store, the row with a hash keeps its id, user,
  -- hash, family and expiry, and its times of consumption and of revocation once they are set; an
  -- id with no active row stays so once the sequence has passed it; and ids stay below the
  -- sequence. Condition: the driver keeps its laws, whichever of its calls it fails.
  pub after_calls-Evolves :
      (cs : List StoreCall) (w : W) → Evolves (d.tables w) (d.tables (after_calls d cs w))
  unfolding after_calls
  after_calls-Evolves [] w = Evolves-refl _
  after_calls-Evolves (c ∷ cs) w =
      Evolves-trans (after_call-Evolves c w) (after_calls-Evolves cs (after_call d c w))

  spent_not_rotated :
      (old_id at : ℕ) (next r : RefreshToken) (w : W)
      → IsSpent (to_int64 old_id) (d.tables w)
      → (rotate_atomically d old_id at next w).0 ≡ ok r
      → ⊥
  spent_not_rotated old_id at next r w spent e =
      let done = (rotate_atomically-Rotated d laws old_id at next w).1 r e in
      let one = done.was_active in let zero = spent.none_active in omega arith

  -- Once `RotateAtomically` of an id has succeeded, no later call for the same id does, whatever
  -- calls of the refresh-token store come between. Conditions: the ids of the tokens are below the
  -- sequence at the start, and the driver keeps its laws, whichever of its calls it fails.
  pub rotate_once :
      (old_id at at' : ℕ) (next next' r : RefreshToken) (cs : List StoreCall) (w : W)
      → IsNumbered (d.tables w)
      → (rotate_atomically d old_id at next w).0 ≡ ok r
      → is_ok
          (rotate_atomically d old_id at' next'
            (after_calls d cs (rotate_atomically d old_id at next w).1)).0
        ≡ false
  rotate_once old_id at at' next next' r cs w numbered first =
      let done = (rotate_atomically-Rotated d laws old_id at next w).1 r first in
      let spent = Rotated-IsSpent old_id at next _ _ numbered done in
      never_ok _
        (λ r'. spent_not_rotated old_id at' next' r' _ ((after_calls-Evolves cs _).spent _ spent))
