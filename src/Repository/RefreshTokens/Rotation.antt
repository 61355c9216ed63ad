-- ===== src/Repository/RefreshTokens/Rotation.antt =====
-- pkg/repository/refresh_sqlc.go: what `RotateAtomically` does to the table, over every behaviour of
-- the driver.
use golang_rest_api_template.Base.{
  ℕ, ◌+◌, ◌≡◌, refl, sym, ap, subst, ◌∙◌, ◌==◌, ==_iff, ◌⊎◌, inl, inr, arith, Bool-cases, Bytes,
  ◌=s◌, any, map, none, some, List, [], ◌∷◌, ◌++◌, false, if◌then◌else◌,
}
use golang_rest_api_template.Result.{ok, Io, ◌>>=◌, map_err, pure, Result-cases}
use golang_rest_api_template.Errors.{Error, cause}
use golang_rest_api_template.Models.{RefreshToken}
use golang_rest_api_template.Repository.Tables.{
  Tables, count_where, create_refresh_token, consume_refresh_token_if_active,
}
use golang_rest_api_template.Repository.Tables.Tokens.{
  Evolves, Evolves-trans, IsSpent, IsNumbered, active_with_id,
}
use golang_rest_api_template.Repository.Tables.Evolution.{
  create_refresh_token-Evolves, consume-Evolves, consume-IsSpent, consume-count,
}
use golang_rest_api_template.Repository.Driver.{Driver, DriverLaws, exec_tx, begin_tx, commit}
use golang_rest_api_template.Repository.Driver.Laws.{
  exec_tx_ok, exec_tx-keeps, begin_tx-keeps, begin_tx_ok, commit_cases, commit_ok,
}
use golang_rest_api_template.Repository.Books.{to_int64}
use golang_rest_api_template.Repository.RefreshTokens.{insert_next, rotate_atomically, consume_old}

-- The tables after the two statements of a rotation, at the server's times `n` and `m`.
abbrev pub consumed : (n old_id at : ℕ) → Tables → Tables
consumed n old_id at t = (consume_refresh_token_if_active n (to_int64 old_id) at t).1

abbrev pub inserted : (m : ℕ) → RefreshToken → Tables → Tables
inserted m next t =
    (create_refresh_token m (to_int64 next.user_id) next.token_hash next.family_id next.expires_at
      t).1

-- The row of an id that is active, marked as consumed.
abbrev pub mark_consumed : (n id at : ℕ) → RefreshToken → RefreshToken
mark_consumed n id at row =
    if active_with_id id row then record row { consumed_at = some at; updated_at = n } else row

-- The row that a successor has in the table.
abbrev pub stored : (id m : ℕ) → RefreshToken → RefreshToken
stored id m next = record {
  id = id;
  user_id = to_int64 next.user_id;
  token_hash = next.token_hash;
  family_id = next.family_id;
  expires_at = next.expires_at;
  consumed_at = none;
  revoked_at = none;
  created_at = m;
  updated_at = m;
}

-- One active row of the id was there; it is marked, the stored successor stands behind the rows, and
-- the other tables are the same.
pub record Rotated (old_id at : ℕ) (next : RefreshToken) (t t' : Tables) : Type 0 where
  pub consume_time : ℕ
  pub insert_time : ℕ
  pub was_active : count_where (active_with_id (to_int64 old_id)) t.tokens.rows ≡ 1
  pub new_rows :
      t'.tokens.rows
      ≡ map (mark_consumed consume_time (to_int64 old_id) at) t.tokens.rows
        ++ stored t.tokens.next_id insert_time next ∷ []
  pub new_hash : any (λ r. r.token_hash =s next.token_hash) t.tokens.rows ≡ false
  pub next_id : t'.tokens.next_id ≡ t.tokens.next_id + 1
  pub same_books : t'.books ≡ t.books
  pub same_users : t'.users ≡ t.users
  pub both : t' ≡ inserted insert_time next (consumed consume_time old_id at t)

-- An INSERT of a new hash.
inserted_lem :
    (m : ℕ) (next : RefreshToken) (t : Tables)
    → any (λ r. r.token_hash =s next.token_hash) t.tokens.rows ≡ false
    → inserted m next t ≡ record t {
      tokens = record {
        rows = t.tokens.rows ++ stored t.tokens.next_id m next ∷ [];
        next_id = t.tokens.next_id + 1;
      };
    }
unfolding create_refresh_token
inserted_lem m next t free = rw (inserted, free) refl

-- The two statements together.
rotated_lem :
    (n m old_id at : ℕ) (next : RefreshToken) (t t' : Tables)
    → count_where (active_with_id (to_int64 old_id)) t.tokens.rows ≡ 1
    → t' ≡ inserted m next (consumed n old_id at t)
    → any (λ r. r.token_hash =s next.token_hash) (consumed n old_id at t).tokens.rows ≡ false
    → Rotated old_id at next t t'
unfolding consume_refresh_token_if_active
rotated_lem n m old_id at next t t' active e free = record {
  consume_time = n;
  insert_time = m;
  was_active = active;
  new_rows = ap (λ x. x.tokens.rows) (e ∙ inserted_lem m next (consumed n old_id at t) free);
  new_hash = sym (same_hashes t.tokens.rows) ∙ free;
  next_id = ap (λ x. x.tokens.next_id) (e ∙ inserted_lem m next (consumed n old_id at t) free);
  same_books = ap (λ x. x.books) (e ∙ inserted_lem m next (consumed n old_id at t) free);
  same_users = ap (λ x. x.users) (e ∙ inserted_lem m next (consumed n old_id at t) free);
  both = e;
}
  where
    same_hashes :
        (rows : List RefreshToken)
        → any
            (λ r. r.token_hash =s next.token_hash)
            (map (mark_consumed n (to_int64 old_id) at) rows)
          ≡ any (λ r. r.token_hash =s next.token_hash) rows
    same_hashes [] = refl
    same_hashes (r ∷ rows) = elim (Bool-cases (active_with_id (to_int64 old_id) r)) [
      | inl h ↦ rw (h, same_hashes rows) refl
      | inr h ↦ rw (h, same_hashes rows) refl
    ]

-- A rotation is a step of the table's evolution.
pub Rotated-Evolves :
    (old_id at : ℕ) (next : RefreshToken) (t t' : Tables)
    → Rotated old_id at next t t'
    → Evolves t t'
Rotated-Evolves old_id at next t t' r = rw r.both (
    Evolves-trans (consume-Evolves r.consume_time (to_int64 old_id) at t) (
      create_refresh_token-Evolves r.insert_time (to_int64 next.user_id) next.token_hash
        next.family_id next.expires_at _))

pub Rotated-IsSpent :
    (old_id at : ℕ) (next : RefreshToken) (t t' : Tables)
    → IsNumbered t
    → Rotated old_id at next t t'
    → IsSpent (to_int64 old_id) t'
Rotated-IsSpent old_id at next t t' numbered r = rw r.both (
    (create_refresh_token-Evolves r.insert_time (to_int64 next.user_id) next.token_hash
        next.family_id next.expires_at _).spent
      (to_int64 old_id)
      (consume-IsSpent r.consume_time (to_int64 old_id) at t numbered
        (let one = r.was_active in omega arith)))

module _ {W : Type 0} (d : Driver W) (laws : DriverLaws d) where
  -- A computation that takes the tables to some with `P` or leaves them alone, and does so if it
  -- succeeds.
  abbrev AllOrNothing : (Tables → Type 0) → Io W Error RefreshToken → W → Type 0
  AllOrNothing P m w =
      ((d.tables (m w).1 ≡ d.tables w) ⊎ P (d.tables (m w).1))
      × ((r : RefreshToken) → (m w).0 ≡ ok r → P (d.tables (m w).1))

  abbrev Inserts : ℕ → RefreshToken → Tables → Tables → Type 0
  Inserts m next t t' =
      (t' ≡ inserted m next t) × (any (λ r. r.token_hash =s next.token_hash) t.tokens.rows ≡ false)

  -- An INSERT that succeeds found no row with the hash.
  create_ok :
      (m user_id : ℕ) (token_hash family_id : Bytes) (expires_at : ℕ) (t : Tables)
      (r : RefreshToken)
      → (create_refresh_token m user_id token_hash family_id expires_at t).0 ≡ ok r
      → any (λ r. r.token_hash =s token_hash) t.tokens.rows ≡ false
  unfolding create_refresh_token
  create_ok m user_id token_hash family_id expires_at t r e =
      elim (Bool-cases (any (λ r. r.token_hash =s token_hash) t.tokens.rows)) [
        | inl taken ↦ absurd (cc (rw taken at e))
        | inr free ↦ free
      ]

  commit_row : RefreshToken → Tables → Io W Error RefreshToken
  commit_row row t = map_err cause (commit d t) >>= λ _. pure row

  commit_row-AllOrNothing :
      (row : RefreshToken) (P : Tables → Type 0) (t : Tables) (w : W)
      → P t
      → AllOrNothing P (commit_row row t) w
  unfolding commit_row
  commit_row-AllOrNothing row P t w holds =
      let at = λ (e : d.tables (commit d t w).1 ≡ t). subst P (sym e) holds in
      elim (Result-cases (commit d t w).0) [
        | inl (a, e) ↦ rw e (
          elim (commit_cases d laws t w) [ inl k ↦ inl k | inr k ↦ inr (at k) ],
          λ r h. at (commit_ok d laws t w a e),
        )
        | inr (x, e) ↦ rw e (
          elim (commit_cases d laws t w) [ inl k ↦ inl k | inr k ↦ inr (at k) ],
          λ r h. absurd (ground arith),
        )
      ]

  -- The insertion and the commit.
  insert_next-AllOrNothing :
      (next : RefreshToken) (t : Tables) (w : W)
      → AllOrNothing (Inserts (d.now w) next t) (insert_next d next t) w
  unfolding insert_next commit_row
  insert_next-AllOrNothing next t w =
      let stmt =
        create_refresh_token (d.now w) (to_int64 next.user_id) next.token_hash next.family_id
          next.expires_at in
      let w' = (exec_tx d stmt t w).1 in
      let keeps : d.tables w' ≡ d.tables w = exec_tx-keeps d laws stmt t w in
      elim (Result-cases (exec_tx d stmt t w).0) [
        | inl (a, e) ↦
            let (made, target) = exec_tx_ok d laws stmt t w a.0 a.1 e in
            let free = create_ok (d.now w) _ next.token_hash next.family_id _ t a.0 made in
            rw (e, ← keeps)
              (commit_row-AllOrNothing a.0 (Inserts (d.now w) next t) a.1 w' (sym target, free))
        | inr (x, e) ↦ rw e (inl keeps, λ r h. absurd (ground arith))
      ]

  abbrev RotatesOrNot : ℕ → ℕ → RefreshToken → Tables → Io W Error RefreshToken → W → Type 0
  RotatesOrNot old_id at next t m w =
      ((d.tables (m w).1 ≡ t) ⊎ Rotated old_id at next t (d.tables (m w).1))
      × ((r : RefreshToken) → (m w).0 ≡ ok r → Rotated old_id at next t (d.tables (m w).1))

  after_consume :
      (n old_id at : ℕ) (next : RefreshToken) (t : Tables) (w : W)
      → count_where (active_with_id (to_int64 old_id)) t.tokens.rows ≡ 1
      → d.tables w ≡ t
      → RotatesOrNot old_id at next t (insert_next d next (consumed n old_id at t)) w
  after_consume n old_id at next t w active keeps =
      let (either, done) = insert_next-AllOrNothing next (consumed n old_id at t) w in
      let rotated =
        λ (e : Inserts (d.now w) next (consumed n old_id at t)
            (d.tables (insert_next d next (consumed n old_id at t) w).1)).
          rotated_lem n (d.now w) old_id at next t _ active e.0 e.1 in
      (elim either [ inl e ↦ inl (e ∙ keeps) | inr e ↦ inr (rotated e) ], λ r h. rotated (done r h))

  consume_old-Rotated :
      (old_id at : ℕ) (next : RefreshToken) (t : Tables) (w : W)
      → d.tables w ≡ t
      → RotatesOrNot old_id at next t (consume_old d old_id at next t) w
  unfolding consume_old
  consume_old-Rotated old_id at next t w here =
      let stmt = consume_refresh_token_if_active (d.now w) (to_int64 old_id) at in
      let w' = (exec_tx d stmt t w).1 in
      let keeps : d.tables w' ≡ t = exec_tx-keeps d laws stmt t w ∙ here in
      elim (Result-cases (exec_tx d stmt t w).0) [
        | inr (x, e) ↦ rw e (inl keeps, λ r h. absurd (ground arith))
        | inl (a, e) ↦
            let (counted, left) = exec_tx_ok d laws stmt t w a.0 a.1 e in
            let count : count_where (active_with_id (to_int64 old_id)) t.tokens.rows ≡ a.0 =
              cc (counted, consume-count (d.now w) (to_int64 old_id) at t) in
            elim (Bool-cases (a.0 == 1)) [
              | inl one ↦
                  rw (e, one, ← left)
                    (after_consume (d.now w) old_id at next t w' (count ∙ (==_iff a.0 1).0 one)
                      keeps)
              | inr many ↦ rw (e, many) (inl keeps, λ r h. absurd (ground arith))
            ]
      ]

  -- `RotateAtomically` leaves the tables as they were, or does this to the tokens and nothing
  -- else: there was one active row of the id, it is marked with the time of consumption, and
  -- behind the rows stands one new row with the next id of the sequence and the user, the hash,
  -- the family and the expiry of the successor, not consumed and not revoked, whose hash no row
  -- had; and it has done the latter if it succeeds. Condition: the driver keeps its laws,
  -- whichever of its calls it fails.
  pub rotate_atomically-Rotated :
      (old_id at : ℕ) (next : RefreshToken) (w : W)
      → RotatesOrNot old_id at next (d.tables w) (rotate_atomically d old_id at next) w
  unfolding rotate_atomically
  rotate_atomically-Rotated old_id at next w =
      let w' = (begin_tx d w).1 in
      let begun : d.tables w' ≡ d.tables w = begin_tx-keeps d laws w in
      elim (Result-cases (begin_tx d w).0) [
        | inr (x, e) ↦ rw e (inl begun, λ r h. absurd (ground arith))
        | inl (t, e) ↦
            let same : t ≡ d.tables w = begin_tx_ok d laws w t e in
            rw (e, ← same) (consume_old-Rotated old_id at next t w' (begun ∙ sym same))
      ]
