-- ===== src/Auth/Tokens.antt =====
-- pkg/auth/tokens.go.
use golang_rest_api_template.Base.{
  ℕ, ◌*◌, Bytes, lit, if◌then◌else◌, is_empty, trim_space, hex_encode,
}
use golang_rest_api_template.Result.{Io, ◌>>=◌, pure, map_err}
use golang_rest_api_template.Errors.{Error, cause}
use golang_rest_api_template.Platform.{Platform, Duration, malformed, not_positive, positive}

abbrev pub second : ℕ
second = 1000000000

abbrev default_access_token_ttl : ℕ
default_access_token_ttl = 5 * 60 * second

abbrev default_refresh_token_ttl : ℕ
default_refresh_token_ttl = 7 * 24 * 3600 * second

abbrev pub duration_or : ℕ → Duration → ℕ
duration_or d (positive n) = n
duration_or d malformed = d
duration_or d not_positive = d

module _ {W : Type 0} (p : Platform W) where
  open p use {getenv, parse_duration, rand_read, base64_raw_url, sha256}

  unfoldable pub duration_from_env : Bytes → ℕ → ℕ
  duration_from_env key default =
      let s = trim_space (getenv key) in
      if is_empty s then default else duration_or default (parse_duration s)

  unfoldable pub access_token_ttl : ℕ
  access_token_ttl = duration_from_env (lit "ACCESS_TOKEN_TTL") default_access_token_ttl

  unfoldable pub refresh_token_ttl : ℕ
  refresh_token_ttl = duration_from_env (lit "REFRESH_TOKEN_TTL") default_refresh_token_ttl

  unfoldable pub new_opaque_token : Io W Error Bytes
  new_opaque_token = do b ← map_err cause (rand_read 32); pure (base64_raw_url b)

  unfoldable pub new_family_id : Io W Error Bytes
  new_family_id = do b ← map_err cause (rand_read 16); pure (hex_encode b)

  unfoldable pub hash_refresh_token : Bytes → Bytes
  hash_refresh_token plaintext = hex_encode (sha256 plaintext)
