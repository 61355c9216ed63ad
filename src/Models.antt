-- ===== src/Models.antt =====
-- pkg/models: the records that the layers exchange. `uint` is 64 bits wide; a time is a number of
-- nanoseconds, and a `*time.Time` an `Option`.
use golang_rest_api_template.Base.{ℕ, Bytes, Option}

pub record Book : Type 0 where
  pub id : ℕ
  pub owner_id : ℕ
  pub title : Bytes
  pub author : Bytes
  pub created_at : ℕ
  pub updated_at : ℕ

pub record User : Type 0 where
  pub id : ℕ
  pub username : Bytes
  pub password : Bytes
  pub role : Bytes
  pub created_at : ℕ
  pub updated_at : ℕ

pub record RefreshToken : Type 0 where
  pub id : ℕ
  pub user_id : ℕ
  pub token_hash : Bytes
  pub family_id : Bytes
  pub expires_at : ℕ
  pub consumed_at : Option ℕ
  pub revoked_at : Option ℕ
  pub created_at : ℕ
  pub updated_at : ℕ
