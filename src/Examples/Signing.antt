-- ===== src/Examples/Signing.antt =====
-- A token that is issued and then presented.
use golang_rest_api_template.Base.{
  ℕ, ◌+◌, Bool, true, false, ◌&&◌, Option, none, some, [], ◌∷◌, ◌==◌, if◌then◌else◌, lit, ◌=s◌,
}
use golang_rest_api_template.Examples.World.{key_32}
use golang_rest_api_template.Base.Integers.{pos}
use golang_rest_api_template.Result.{ok, err}
use golang_rest_api_template.Errors.{other}
use golang_rest_api_template.Platform.{Platform, Claims, malformed}
use golang_rest_api_template.Http.{Request, Context}

-- The world is the number of draws of the random source.
abbrev issued_claims : Claims
issued_claims = record {
  username = lit "ada";
  user_id = 7;
  role = lit "user";
  expires_at = some 302000000000;
  issued_at = some 2000000000;
  id = lit "j";
}

abbrev same_time : Option ℕ → ℕ → Bool
same_time none n = false
same_time (some m) n = m == n

abbrev is_issued : Claims → Bool
is_issued c =
    c.username =s lit "ada"
    && (c.user_id == 7
        && (c.role =s lit "user"
            && (same_time c.expires_at 302000000000
                && (same_time c.issued_at 2000000000 && c.id =s lit "j"))))

-- This library signs one set of claims.
abbrev signing_platform : Platform ℕ
signing_platform = record {
  time_now = λ w. (2000000000, w);
  rand_read = λ n w. (ok (w ∷ []), w + 1);
  getenv = λ name. [];
  parse_duration = λ s. malformed;
  sha256 = λ s. s;
  base64_raw_url = λ s. lit "j";
  bcrypt_generate = λ password cost w. (ok password, w);
  bcrypt_compare = λ hash password. hash =s password;
  jwt_signing_key = record { get = λ w. key_32; put = λ k w. w };
  jwt_sign =
      λ key claims. if is_issued claims then ok (lit "t") else err (other (lit "other claims"));
  jwt_parse = λ key_of token w. (ok (issued_claims, true), w);
}

abbrev request : Request
request = record {
  method = lit "POST";
  path = lit "/api/v1/logout";
  header = λ name. if name =s lit "Authorization" then lit "Bearer t" else [];
  id_param = [];
  query = λ name. none;
  body = [];
  content_length = pos 0;
  client_ip = lit "10.0.0.1";
}

abbrev context : Context
context = record {
  request = request;
  username = none;
  user_id = none;
  role = none;
  jti = none;
  access_exp = none;
  request_id = none;
  body_cap = none;
  headers = [];
}
