-- ===== src/Repository/Tables/Tokens.antt =====
-- The rows of `refresh_tokens` by their hash and their id, and how they age.
use golang_rest_api_template.Base.{
  ℕ, ◌+◌, ◌<◌, ◌≡◌, refl, ap, Bytes, ◌==◌, ◌=s◌, Bool, true, false, ◌&&◌, Option, some, List, [],
  ◌∷◌, ◌++◌, find, arith, Bool-cases, inl, inr, All,
}
use golang_rest_api_template.Models.{RefreshToken}
use golang_rest_api_template.Repository.Tables.{
  Tables, is_null, is_active, update_row, update_where, count_where, with_token_rows,
}

abbrev pub has_hash : Bytes → RefreshToken → Bool
has_hash h r = r.token_hash =s h

-- The row that `FindByHash` sees.
abbrev pub row_of : Bytes → Tables → Option RefreshToken
row_of h t = find (has_hash h) t.tokens.rows

-- What may happen to a row: its marks are set once, and all else but `updated_at` stays.
pub record Ages (r r' : RefreshToken) : Type 0 where
  pub same_id : r'.id ≡ r.id
  pub same_user : r'.user_id ≡ r.user_id
  pub same_hash : r'.token_hash ≡ r.token_hash
  pub same_family : r'.family_id ≡ r.family_id
  pub same_expiry : r'.expires_at ≡ r.expires_at
  pub stays_consumed : is_null r.consumed_at ≡ false → r'.consumed_at ≡ r.consumed_at
  pub stays_revoked : is_null r.revoked_at ≡ false → r'.revoked_at ≡ r.revoked_at

pub Ages-refl : (r : RefreshToken) → Ages r r
Ages-refl r = record {
  same_id = refl;
  same_user = refl;
  same_hash = refl;
  same_family = refl;
  same_expiry = refl;
  stays_consumed = λ h. refl;
  stays_revoked = λ h. refl;
}

pub Ages-trans : {r s u : RefreshToken} → Ages r s → Ages s u → Ages r u
Ages-trans a b = record {
  same_id = ground arith;
  same_user = ground arith;
  same_hash = ground arith;
  same_family = ground arith;
  same_expiry = ground arith;
  stays_consumed = λ h. ground (arith, a.stays_consumed h, b.stays_consumed);
  stays_revoked = λ h. ground (arith, a.stays_revoked h, b.stays_revoked);
}

-- An UPDATE whose rows age.
module _ (p : RefreshToken → Bool) (f : RefreshToken → RefreshToken)
    (age : (r : RefreshToken) → p r ≡ true → Ages r (f r)) where
  update_row-Ages : (r : RefreshToken) → Ages r (update_row p f r)
  update_row-Ages r = elim (Bool-cases (p r)) [
    | inl e ↦ rw e (age r e)
    | inr e ↦ rw e (Ages-refl r)
  ]

  pub find-update_where :
      (h : Bytes) (rows : List RefreshToken) (r : RefreshToken)
      → find (has_hash h) rows ≡ some r
      → find (has_hash h) (update_where p f rows) ≡ some (update_row p f r)
  find-update_where h [] r e = cc
  find-update_where h (x ∷ rows) r e =
      let same = (update_row-Ages x).same_hash in
      elim (Bool-cases (has_hash h x)) [
        | inl hit ↦
            let x-eq-r : x ≡ r = ground arith in
            rw (same, hit) (ap (λ y. some (update_row p f y)) x-eq-r)
        | inr miss ↦ rw (same, miss) (find-update_where h rows r (ground arith))
      ]

pub find-append :
    (q : RefreshToken → Bool) (rows more : List RefreshToken) (r : RefreshToken)
    → find q rows ≡ some r
    → find q (rows ++ more) ≡ some r
find-append q [] more r e = cc
find-append q (x ∷ rows) more r e = ground (arith, find-append q rows more r)

-- The active rows with an id: those that a conditional consume would match.
abbrev pub active_with_id : ℕ → RefreshToken → Bool
active_with_id id r = (r.id == id) && is_active r

-- No row with this id can be consumed any more, and none will get this id.
pub record IsSpent (id : ℕ) (t : Tables) : Type 0 where
  pub none_active : count_where (active_with_id id) t.tokens.rows ≡ 0
  pub taken : id < t.tokens.next_id

-- Every id in the table came from the sequence.
abbrev pub IsNumbered : Tables → Type 0
IsNumbered t = All (λ r. r.id < t.tokens.next_id) t.tokens.rows

module _ (p : RefreshToken → Bool) (f : RefreshToken → RefreshToken)
    (same : (r : RefreshToken) → (f r).id ≡ r.id)
    (passive : (r : RefreshToken) → is_active (f r) ≡ false) where
  pub none_active-update_where :
      (id : ℕ) (rows : List RefreshToken)
      → count_where (active_with_id id) rows ≡ 0
      → count_where (active_with_id id) (update_where p f rows) ≡ 0
  none_active-update_where id [] e = refl
  none_active-update_where id (r ∷ rows) e =
      ground (arith, passive r, none_active-update_where id rows)

  pub below-update_where :
      (n : ℕ) (rows : List RefreshToken)
      → All (λ r. r.id < n) rows
      → All (λ r. r.id < n) (update_where p f rows)
  below-update_where n [] h = tt
  below-update_where n (r ∷ rows) (h, hs) = ground (arith, same r, below-update_where n rows hs)

pub none_active-append :
    (id : ℕ) (rows : List RefreshToken) (r : RefreshToken)
    → (r.id ≡ id → ⊥)
    → count_where (active_with_id id) rows ≡ 0
    → count_where (active_with_id id) (rows ++ r ∷ []) ≡ 0
none_active-append id [] r ne e = ground arith
none_active-append id (x ∷ rows) r ne e = ground (arith, none_active-append id rows r ne)

pub below-append :
    (n : ℕ) (rows : List RefreshToken) (r : RefreshToken)
    → r.id ≡ n
    → All (λ x. x.id < n) rows
    → All (λ x. x.id < n + 1) (rows ++ r ∷ [])
below-append n [] r e h = (omega arith, tt)
below-append n (x ∷ rows) r e (p, h) = (omega arith, below-append n rows r e h)

-- What every statement of the package does to the table, whatever its arguments.
pub record Evolves (t t' : Tables) : Type 0 where
  pub ages :
      (h : Bytes) (r : RefreshToken)
      → row_of h t ≡ some r
      → (r' : RefreshToken) × (row_of h t' ≡ some r') × Ages r r'
  pub spent : (id : ℕ) → IsSpent id t → IsSpent id t'
  pub numbered : IsNumbered t → IsNumbered t'

pub Evolves-refl : (t : Tables) → Evolves t t
Evolves-refl t = record {
  ages = λ h r e. (r, e, Ages-refl r);
  spent = λ id s. s;
  numbered = λ n. n;
}

pub Evolves-trans : {t u v : Tables} → Evolves t u → Evolves u v → Evolves t v
Evolves-trans a b = record {
  ages = λ h r e.
      let (r', e', o) = a.ages h r e in
      let (r'', e'', o') = b.ages h r' e' in (r'', e'', Ages-trans o o');
  spent = λ id s. b.spent id (a.spent id s);
  numbered = λ n. b.numbered (a.numbered n);
}

module _ (p : RefreshToken → Bool) (f : RefreshToken → RefreshToken)
    (age : (r : RefreshToken) → p r ≡ true → Ages r (f r))
    (same : (r : RefreshToken) → (f r).id ≡ r.id)
    (passive : (r : RefreshToken) → is_active (f r) ≡ false) where
  pub update-Evolves : (t : Tables) → Evolves t (with_token_rows t (update_where p f t.tokens.rows))
  update-Evolves t = record {
    ages = λ h r e. (
      update_row p f r,
      find-update_where p f age h t.tokens.rows r e,
      update_row-Ages p f age r,
    );
    spent = λ id s. record {
      none_active = none_active-update_where p f same passive id t.tokens.rows s.none_active;
      taken = s.taken;
    };
    numbered = λ n. below-update_where p f same passive t.tokens.next_id t.tokens.rows n;
  }
