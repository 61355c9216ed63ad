-- ===== src/Service/Users/Rotation.antt =====
-- pkg/service/user_service.go: `Refresh` over the SQL stores.
use golang_rest_api_template.Base.{
  ℕ, ◌+◌, ◌≤◌, ◌≡◌, refl, ◌∙◌, Bytes, Bool-cases, inl, inr, arith, some, is_empty, true, ltb, subst,
}
use golang_rest_api_template.Result.{Result, ok, Io, Result-cases}
use golang_rest_api_template.Errors.{Error, is, refresh_already_consumed}
use golang_rest_api_template.Models.{RefreshToken, User}
use golang_rest_api_template.Platform.{Platform}
use golang_rest_api_template.Repository.Tables.{Tables, is_null}
use golang_rest_api_template.Repository.Tables.Tokens.{row_of}
use golang_rest_api_template.Repository.Driver.{Driver, DriverLaws}
use golang_rest_api_template.Repository.Books.{to_int64}
use golang_rest_api_template.Repository.Users.{user_store, find_by_id}
use golang_rest_api_template.Repository.RefreshTokens.{
  refresh_store, find_by_hash, rotate_atomically, revoke_family,
}
use golang_rest_api_template.Repository.RefreshTokens.Rotation.{Rotated, rotate_atomically-Rotated}
use golang_rest_api_template.Auth.Tokens.{hash_refresh_token, new_opaque_token, refresh_token_ttl}
use golang_rest_api_template.Auth.Denylist.{TokenDenylist}
use golang_rest_api_template.Service.Users.Lookups.{
  find_by_hash_ok, find_by_id_ok, find_by_id-Keeps,
}
use golang_rest_api_template.Service.Users.{
  TokenPair, new_row, pair_of, refresh_with, present_row, rotate, after_rotation, revoke_reused,
  refresh_tokens, effective_role, rotate_as, generate_token,
}
use golang_rest_api_template.Service.Users.Frame.{
  Frame, new_opaque_token-Keeps, generate_token-Keeps,
}

module _ {W : Type 0} (p : Platform W) (d : Driver W) (laws : DriverLaws d) (frame : Frame p d)
    (denylist : TokenDenylist W) where
  abbrev pub refresh_sql : Bytes → Io W Error TokenPair
  refresh_sql = refresh_tokens p (user_store d) (some (refresh_store d)) denylist

  -- What a successful `Refresh` of a token did.
  pub record Succession (plaintext : Bytes) (pair : TokenPair) (t t' : Tables) : Type 0 where
    pub row : RefreshToken
    pub now : ℕ
    pub found : row_of (hash_refresh_token p plaintext) t ≡ some row
    pub not_revoked : is_null row.revoked_at ≡ true
    pub not_consumed : is_null row.consumed_at ≡ true
    pub not_expired : now ≤ row.expires_at
    pub next : RefreshToken
    pub same_user : next.user_id ≡ to_int64 row.user_id
    pub of_returned : next.token_hash ≡ hash_refresh_token p pair.refresh_token
    pub same_family : next.family_id ≡ row.family_id
    pub expiry : next.expires_at ≡ now + refresh_token_ttl p
    pub rotated : Rotated row.id now next t t'

  abbrev pub sql_row : User → Bytes → Bytes → ℕ → RefreshToken
  sql_row = new_row p (user_store d) (some (refresh_store d)) denylist

  abbrev Succeeds : RefreshToken → ℕ → Tables → Result Error TokenPair × W → Type 0
  Succeeds row now t res =
      (pair : TokenPair)
      → res.0 ≡ ok pair
      → (u : User) × (u.id ≡ to_int64 row.user_id)
        × Rotated row.id now (sql_row u pair.refresh_token row.family_id now) t (d.tables res.1)

  abbrev sql_rotate : RefreshToken → ℕ → Io W Error TokenPair
  sql_rotate = rotate p (user_store d) (some (refresh_store d)) denylist (refresh_store d)

  after_rotation-Succeeds :
      (row : RefreshToken) (now : ℕ) (u : User) (access plain : Bytes) (w : W)
      → u.id ≡ to_int64 row.user_id
      → Succeeds row now (d.tables w) (
          after_rotation p
            (user_store d)
            (some (refresh_store d))
            denylist
            (refresh_store d)
            row
            now
            (pair_of p (user_store d) (some (refresh_store d)) denylist access plain)
            (rotate_atomically d row.id now (sql_row u plain row.family_id now) w).0
            (rotate_atomically d row.id now (sql_row u plain row.family_id now) w).1)
  unfolding after_rotation revoke_reused
  after_rotation-Succeeds row now u access plain w mine pair =
      let next = sql_row u plain row.family_id now in
      let done = rotate_atomically-Rotated d laws row.id now next w in
      elim (Result-cases (rotate_atomically d row.id now next w).0) [
        | inl (r, e) ↦ rw e λ h. (
          u,
          mine,
          let same : plain ≡ pair.refresh_token = ground arith in
              subst
                (λ x.
                  Rotated row.id now (sql_row u x row.family_id now) (d.tables w)
                    (d.tables (rotate_atomically d row.id now next w).1))
                same (done.1 r e),
        )
        | inr (x, e) ↦ elim (Bool-cases (is x refresh_already_consumed)) [
          | inr lost ↦ rw (e, lost) λ h. absurd (ground arith)
          | inl race ↦
              rw (e, race)
                (elim (Result-cases
                  (revoke_family d row.family_id now (rotate_atomically d row.id now next w).1).0) [
                    | inl (z, k) ↦ rw k λ h. absurd (ground arith)
                    | inr (z, k) ↦ rw k λ h. absurd (ground arith)
                  ])
        ]
      ]

  rotate_as-Succeeds :
      (row : RefreshToken) (now : ℕ) (u : User) (role : Bytes) (w : W)
      → u.id ≡ to_int64 row.user_id
      → Succeeds row now (d.tables w) (
          rotate_as p
            (user_store d)
            (some (refresh_store d))
            denylist
            (refresh_store d)
            row
            now
            u
            role
            w)
  unfolding rotate_as
  rotate_as-Succeeds row now u role w mine =
      let w' = (generate_token p u.username u.id role w).1 in
      let w'' = (new_opaque_token p w').1 in
      let keeps : d.tables w'' ≡ d.tables w =
        new_opaque_token-Keeps p d frame w'
        ∙ generate_token-Keeps p d frame u.username u.id role w in
      elim (Result-cases (generate_token p u.username u.id role w).0) [
        | inr (x, e) ↦ rw e λ pair h. absurd (ground arith)
        | inl (access, e) ↦ rw e (elim (Result-cases (new_opaque_token p w').0) [
          | inr (x, e') ↦ rw e' λ pair h. absurd (ground arith)
          | inl (plain, e') ↦
              rw (e', ← keeps) (after_rotation-Succeeds row now u access plain w'' mine)
        ])
      ]

  rotate-Succeeds :
      (row : RefreshToken) (now : ℕ) (w : W) → Succeeds row now (d.tables w) (sql_rotate row now w)
  unfolding rotate
  rotate-Succeeds row now w =
      let keeps : d.tables (find_by_id d row.user_id w).1 ≡ d.tables w =
        find_by_id-Keeps d laws row.user_id w in
      elim (Result-cases (find_by_id d row.user_id w).0) [
        | inr (x, e) ↦ rw e λ pair h. absurd (ground arith)
        | inl (u, e) ↦ rw e (elim (Result-cases (effective_role u.role)) [
          | inr (x, e') ↦ rw e' λ pair h. absurd (ground arith)
          | inl (role, e') ↦
              rw (e', ← keeps)
                (rotate_as-Succeeds row now u role (find_by_id d row.user_id w).1
                  (find_by_id_ok d laws row.user_id w u e))
        ])
      ]

  present_row-Succeeds :
      (row : RefreshToken) (now : ℕ) (w : W) (pair : TokenPair)
      → (present_row p
          (user_store d)
          (some (refresh_store d))
          denylist
          (refresh_store d)
          row
          now
          w).0
        ≡ ok pair
      → (is_null row.revoked_at ≡ true)
        × (is_null row.consumed_at ≡ true)
        × (now ≤ row.expires_at)
        × ((u : User) × (u.id ≡ to_int64 row.user_id)
            × Rotated row.id now (sql_row u pair.refresh_token row.family_id now) (d.tables w) (
                d.tables
                  (present_row p
                    (user_store d)
                    (some (refresh_store d))
                    denylist
                    (refresh_store d)
                    row
                    now
                    w).1))
  unfolding present_row revoke_reused
  present_row-Succeeds row now w pair = elim (Bool-cases (is_null row.revoked_at)) [
    | inr e ↦ rw e λ h. absurd (ground arith)
    | inl e ↦ elim (Bool-cases (ltb row.expires_at now)) [
      | inl e' ↦ rw (e, e') λ h. absurd (ground arith)
      | inr e' ↦ elim (Bool-cases (is_null row.consumed_at)) [
        | inl e'' ↦
            rw (e, e', e'') λ h. (refl, refl, ground arith, rotate-Succeeds row now w pair h)
        | inr e'' ↦
            rw (e, e', e'')
              (elim (Result-cases (revoke_family d row.family_id now w).0) [
                | inl (z, k) ↦ rw k λ h. absurd (ground arith)
                | inr (z, k) ↦ rw k λ h. absurd (ground arith)
              ])
      ]
    ]
  ]

  pub refresh_ok :
      (plaintext : Bytes) (w : W) (pair : TokenPair)
      → (refresh_sql plaintext w).0 ≡ ok pair
      → Succession plaintext pair (d.tables w) (d.tables (refresh_sql plaintext w).1)
  unfolding refresh_tokens refresh_with
  refresh_ok plaintext w pair = elim (Bool-cases (is_empty plaintext)) [
    | inl e ↦ rw e λ h. absurd (ground arith)
    | inr e ↦ rw e (
        let h = hash_refresh_token p plaintext in
        let w' = (find_by_hash d h w).1 in
        elim (Result-cases (find_by_hash d h w).0) [
          | inr (x, k) ↦ rw k λ z. absurd (ground arith)
          | inl (row, k) ↦
              let (found, left) = find_by_hash_ok d laws h w row k in
              let keeps : d.tables (p.time_now w').1 ≡ d.tables w = frame.time_keeps w' ∙ left in
              rw k λ z.
                let (a, b, c, r) =
                  present_row-Succeeds row (p.time_now w').0 (p.time_now w').1 pair z in
                record {
                  row = row;
                  now = (p.time_now w').0;
                  found = found;
                  not_revoked = a;
                  not_consumed = b;
                  not_expired = c;
                  next = sql_row r.0 pair.refresh_token row.family_id (p.time_now w').0;
                  same_user = r.1;
                  of_returned = refl;
                  same_family = refl;
                  expiry = refl;
                  rotated = rw (← keeps) r.2;
                }
        ])
  ]
