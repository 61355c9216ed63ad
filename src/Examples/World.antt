-- ===== src/Examples/World.antt =====
-- A world in memory: the tables, a clock and a counter that stands for the random source.
use golang_rest_api_template.Base.{
  ℕ, ◌+◌, refl, true, none, some, List, [], ◌∷◌, ◌++◌, Bytes, lit, ◌=s◌,
}
use golang_rest_api_template.Result.{ok}
use golang_rest_api_template.Platform.{Platform, Claims, malformed}
use golang_rest_api_template.Repository.Driver.{Driver, DriverLaws}
use golang_rest_api_template.Repository.Tables.{Tables, Table}
use golang_rest_api_template.Service.Users.Frame.{Frame}

pub record World : Type 0 where
  pub tables : Tables
  pub clock : ℕ
  pub draws : ℕ
  pub jwt_key : Bytes
  pub api_key : Bytes

abbrev pub memory_driver : Driver World
memory_driver = record {
  tables = λ w. w.tables;
  put = λ t w. record w { tables = t };
  fault = λ w. (none, w);
  now = λ w. w.clock;
}

pub memory_laws : DriverLaws memory_driver
memory_laws = record { tables-put = λ t w. refl; tables-fault = λ w. refl }

abbrev pub key_32 : Bytes
key_32 = lit "0123456789abcdef0123456789abcdef"

-- The subject of every token that the parser of this world accepts.
abbrev pub ada_claims : Claims
ada_claims = record {
  username = lit "ada";
  user_id = 7;
  role = lit "admin";
  expires_at = some 5000;
  issued_at = none;
  id = [];
}

abbrev pub platform : Platform World
platform = record {
  time_now = λ w. (w.clock, w);
  rand_read = λ n w. (ok (w.draws ∷ []), record w { draws = w.draws + 1 });
  getenv = λ name. [];
  parse_duration = λ s. malformed;
  sha256 = λ s. s;
  base64_raw_url = λ s. s;
  bcrypt_generate = λ password cost w. (ok password, w);
  bcrypt_compare = λ hash password. hash =s password;
  jwt_signing_key = record { get = λ w. w.jwt_key; put = λ k w. record w { jwt_key = k } };
  jwt_sign = λ key claims. ok (claims.username ++ claims.id);
  jwt_parse = λ key_of token w. (ok (ada_claims, true), w);
}

pub platform-Frame : Frame platform memory_driver
platform-Frame = record {
  time_keeps = λ w. refl;
  rand_keeps = λ n w. refl;
  bcrypt_keeps = λ password cost w. refl;
}

abbrev pub table : {A : Type 0} → List A → ℕ → Table A
table rows next_id = record { rows = rows; next_id = next_id }
