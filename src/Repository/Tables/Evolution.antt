-- ===== src/Repository/Tables/Evolution.antt =====
-- Each SQL statement on `refresh_tokens`, as a step of the table's evolution.
use golang_rest_api_template.Base.{
  ℕ, ◌<◌, ◌≡◌, refl, Bytes, ◌==◌, ◌=s◌, Bool, ◌&&◌, some, List, [], ◌∷◌, any, arith, Bool-cases,
  inl, inr, All,
}
use golang_rest_api_template.Models.{RefreshToken}
use golang_rest_api_template.Repository.Tables.{
  Tables, is_null, update_where, count_where, with_token_rows, create_refresh_token,
  consume_refresh_token_if_active, revoke_refresh_family, revoke_all_refresh_for_user, ok,
}
use golang_rest_api_template.Repository.Tables.Tokens.{
  Evolves, Evolves-refl, update-Evolves, find-append, none_active-append, below-append, IsSpent,
  active_with_id, Ages-refl, has_hash,
}

-- `INSERT INTO refresh_tokens`.
pub create_refresh_token-Evolves :
    (now user_id : ℕ) (token_hash family_id : Bytes) (expires_at : ℕ) (t : Tables)
    → Evolves t (create_refresh_token now user_id token_hash family_id expires_at t).1
unfolding create_refresh_token
create_refresh_token-Evolves now user_id token_hash family_id expires_at t =
    elim (Bool-cases (any (λ r. r.token_hash =s token_hash) t.tokens.rows)) [
      | inl taken ↦ rw taken (Evolves-refl t)
      | inr free ↦ rw free (record {
        ages = λ h r e. (r, find-append (has_hash h) t.tokens.rows _ r e, Ages-refl r);
        spent = λ id s. record {
          none_active =
              none_active-append id t.tokens.rows _ (λ same. let low = s.taken in omega arith)
                s.none_active;
          taken = let low = s.taken in omega arith;
        };
        numbered = λ n. below-append t.tokens.next_id t.tokens.rows _ refl n;
      })
    ]

-- The conditional UPDATE of a rotation.
pub consume-Evolves :
    (now id at : ℕ) (t : Tables) → Evolves t (consume_refresh_token_if_active now id at t).1
unfolding consume_refresh_token_if_active
consume-Evolves now id at t =
    update-Evolves (active_with_id id) (λ r. record r { consumed_at = some at; updated_at = now })
      (λ r e. record {
        same_id = refl;
        same_user = refl;
        same_hash = refl;
        same_family = refl;
        same_expiry = refl;
        stays_consumed = λ h. ground arith;
        stays_revoked = λ h. refl;
      })
      (λ r. refl) (λ r. refl) t

module _ (q : RefreshToken → Bool) (now at : ℕ) where
  -- An UPDATE that sets `revoked_at` where it is null.
  revoke-Evolves :
      (t : Tables)
      → Evolves t (
          with_token_rows t (
            update_where
              (λ r. q r && is_null r.revoked_at)
              (λ r. record r { revoked_at = some at; updated_at = now })
              t.tokens.rows))
  revoke-Evolves t =
      update-Evolves (λ r. q r && is_null r.revoked_at)
        (λ r. record r { revoked_at = some at; updated_at = now })
        (λ r e. record {
          same_id = refl;
          same_user = refl;
          same_hash = refl;
          same_family = refl;
          same_expiry = refl;
          stays_consumed = λ h. refl;
          stays_revoked = λ h. ground arith;
        })
        (λ r. refl) (λ r. ground arith) t

pub revoke_refresh_family-Evolves :
    (now : ℕ) (family_id : Bytes) (at : ℕ) (t : Tables)
    → Evolves t (revoke_refresh_family now family_id at t).1
unfolding revoke_refresh_family
revoke_refresh_family-Evolves now family_id at t =
    revoke-Evolves (λ r. r.family_id =s family_id) now at t

pub revoke_all_refresh_for_user-Evolves :
    (now user_id at : ℕ) (t : Tables) → Evolves t (revoke_all_refresh_for_user now user_id at t).1
unfolding revoke_all_refresh_for_user
revoke_all_refresh_for_user-Evolves now user_id at t =
    revoke-Evolves (λ r. r.user_id == user_id) now at t

consumed_none_active :
    (now id at : ℕ) (rows : List RefreshToken)
    → count_where (active_with_id id) (
        update_where
          (active_with_id id)
          (λ r. record r { consumed_at = some at; updated_at = now })
          rows)
      ≡ 0
consumed_none_active now id at [] = refl
consumed_none_active now id at (r ∷ rows) = ground (arith, consumed_none_active now id at rows)

matched_below :
    (n id : ℕ) (rows : List RefreshToken)
    → All (λ r. r.id < n) rows
    → 0 < count_where (active_with_id id) rows
    → id < n
matched_below n id [] h c = absurd (omega arith)
matched_below n id (r ∷ rows) (h, hs) c = ground (arith, matched_below n id rows hs)

-- A conditional consume that matches a row leaves its id spent.
pub consume-IsSpent :
    (now id at : ℕ) (t : Tables)
    → All (λ r. r.id < t.tokens.next_id) t.tokens.rows
    → 0 < count_where (active_with_id id) t.tokens.rows
    → IsSpent id (consume_refresh_token_if_active now id at t).1
unfolding consume_refresh_token_if_active
consume-IsSpent now id at t numbered matched = record {
  none_active = consumed_none_active now id at t.tokens.rows;
  taken = matched_below t.tokens.next_id id t.tokens.rows numbered matched;
}

-- The row count of the conditional UPDATE.
pub consume-count :
    (now id at : ℕ) (t : Tables)
    → (consume_refresh_token_if_active now id at t).0
      ≡ ok (count_where (active_with_id id) t.tokens.rows)
unfolding consume_refresh_token_if_active
consume-count now id at t = refl
