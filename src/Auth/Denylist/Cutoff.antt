-- ===== src/Auth/Denylist/Cutoff.antt =====
-- pkg/auth/denylist.go: what `DenyUserBefore` and then `IsUserRevoked` say of a token.
use golang_rest_api_template.Base.{
  ℕ, ◌≤◌, ◌<◌, ◌≡◌, refl, ◌≢◌, true, false, some, [], ◌∷◌, arith, ltb, ◌==◌, ==-false_of_ne, All,
  Bytes, is_empty, format_uint, IsDigit, format_uint-IsDigit, read_digits, is_empty-format_uint,
  read_digits-format_uint,
}
use golang_rest_api_template.Result.{ok, map_err_ok}
use golang_rest_api_template.Auth.Tokens.{access_token_ttl}
use golang_rest_api_template.Platform.{Platform}
use golang_rest_api_template.Auth.Denylist.{
  deny_user_before, is_user_revoked, user_revoke_before_key, covers, unix, check_user,
  set_revoke_before,
}
use golang_rest_api_template.Base.Integers.{pos, atoi}
use golang_rest_api_template.Cache.{Cache}
use golang_rest_api_template.Errors.{cause}

atoi-digits :
    (s : Bytes) (n : ℕ)
    → All IsDigit s
    → is_empty s ≡ false
    → read_digits 0 s ≡ some n
    → n < 9223372036854775808
    → atoi s ≡ some (pos n)
unfolding atoi
atoi-digits [] n digits given e h = absurd (cc given)
atoi-digits (b ∷ s) n ((lo, hi), digits) given e h =
    let no_minus : (b == 45) ≡ false = ground arith in
    let no_plus : (b == 43) ≡ false = ground arith in
    let small : ltb n 9223372036854775808 ≡ true = ground arith in
    rw (no_minus, no_plus, e, small) refl

-- A printed number reads back as a signed one.
atoi-format_uint : (n : ℕ) → n < 9223372036854775808 → atoi (format_uint n) ≡ some (pos n)
atoi-format_uint n h =
    atoi-digits (format_uint n) n (format_uint-IsDigit n) (is_empty-format_uint n)
      (read_digits-format_uint n) h

-- `SET` and then `GET` of the same key, before the expiration.
abbrev pub ReadsBack : {W : Type 0} → Cache W → Type 0
ReadsBack {W} c =
    (key value : Bytes) (expiration : ℕ) (w : W)
    → (c.set key value expiration w).0 ≡ ok tt
    → (c.get key (c.set key value expiration w).1).0 ≡ ok value

module _ {W : Type 0} (p : Platform W) (c : Cache W) (reads_back : ReadsBack c) where
  covers-earlier : (before iat : ℕ) → iat ≤ before → covers (some (pos (unix before))) iat ≡ true
  unfolding covers
  covers-earlier before iat h = ground arith

  check_user-revoked :
      (user_id before iat : ℕ) (w : W)
      → unix before < 9223372036854775808
      → iat ≤ before
      → (c.get (user_revoke_before_key user_id) w).0 ≡ ok (format_uint (unix before))
      → (check_user p c user_id iat w).0 ≡ ok true
  unfolding check_user
  check_user-revoked user_id before iat w fits early kept =
      rw (kept, atoi-format_uint (unix before) fits, covers-earlier before iat early) refl

  -- After a `DenyUserBefore` of the Redis denylist that succeeded, `IsUserRevoked` answers yes for
  -- every token of that user that was issued until then. Conditions: the cache reads back what it
  -- was given, the id of the user and the TTL of access tokens are not 0, and the cutoff in
  -- seconds is below 2^63.
  pub deny_user_before-covers :
      (user_id before iat : ℕ) (w : W)
      → user_id ≢ 0
      → access_token_ttl p ≢ 0
      → unix before < 9223372036854775808
      → iat ≤ before
      → (deny_user_before p c user_id (some before) w).0 ≡ ok tt
      → (is_user_revoked p c user_id (some iat) (deny_user_before p c user_id (some before) w).1).0
        ≡ ok true
  unfolding is_user_revoked deny_user_before set_revoke_before
  deny_user_before-covers user_id before iat w user ttl fits early =
      rw (==-false_of_ne user_id 0 user, ==-false_of_ne (access_token_ttl p) 0 ttl)
        (λ denied. check_user-revoked user_id before iat _ fits early (
          reads_back (user_revoke_before_key user_id) (format_uint (unix before))
            (access_token_ttl p) w
            (map_err_ok cause
              (c.set (user_revoke_before_key user_id) (format_uint (unix before))
                (access_token_ttl p))
              w tt denied)))
