-- ===== src/Examples/Cutoff.antt =====
-- The denylist over a cache in memory.
use golang_rest_api_template.Auth.Tokens.{access_token_ttl, duration_from_env}
use golang_rest_api_template.Base.{
  ◌≡◌, refl, ◌≢◌, true, some, [], arith, if◌then◌else◌, Bytes, ◌=s◌, =s_refl, trim_space,
}
use golang_rest_api_template.Examples.World.{key_32, ada_claims}
use golang_rest_api_template.Base.Integers.{pos}
use golang_rest_api_template.Result.{ok, err}
use golang_rest_api_template.Errors.{redis_nil}
use golang_rest_api_template.Platform.{Platform, malformed}
use golang_rest_api_template.Cache.{Cache}
use golang_rest_api_template.Auth.Denylist.{deny_user_before, is_user_revoked}
use golang_rest_api_template.Auth.Denylist.Cutoff.{ReadsBack, deny_user_before-covers}

-- A cache with room for one key.
abbrev Slot : Type 0
Slot = Bytes × Bytes

abbrev slot_cache : Cache Slot
slot_cache = record {
  get = λ key w. ((if w.0 =s key then ok w.1 else err redis_nil), w);
  set = λ key value expiration w. (ok tt, (key, value));
  incr = λ key w. (ok (pos 1), w);
  eval = λ script key arg w. (ok (pos 1), w);
}

slot_cache-ReadsBack : ReadsBack slot_cache
slot_cache-ReadsBack key value expiration w h = rw (=s_refl key) refl

abbrev slot_platform : Platform Slot
slot_platform = record {
  time_now = λ w. (1000, w);
  rand_read = λ n w. (ok [], w);
  getenv = λ name. [];
  parse_duration = λ s. malformed;
  sha256 = λ s. s;
  base64_raw_url = λ s. s;
  bcrypt_generate = λ password cost w. (ok password, w);
  bcrypt_compare = λ hash password. hash =s password;
  jwt_signing_key = record { get = λ w. key_32; put = λ k w. w };
  jwt_sign = λ key claims. ok claims.username;
  jwt_parse = λ key_of token w. (ok (ada_claims, true), w);
}

abbrev after_logout : Slot
after_logout = (deny_user_before slot_platform slot_cache 7 (some 5000000000) ([], [])).1

cutoff_is_set : (deny_user_before slot_platform slot_cache 7 (some 5000000000) ([], [])).0 ≡ ok tt
unfolding deny_user_before access_token_ttl duration_from_env trim_space
cutoff_is_set = refl

ttl_is_set : access_token_ttl slot_platform ≢ 0
unfolding access_token_ttl duration_from_env trim_space
ttl_is_set e = omega arith

deny_user_before-covers_example :
    (is_user_revoked slot_platform slot_cache 7 (some 4000000000) after_logout).0 ≡ ok true
deny_user_before-covers_example =
    deny_user_before-covers slot_platform slot_cache slot_cache-ReadsBack 7 5000000000 4000000000
      ([], []) (λ e. omega arith) ttl_is_set (omega arith) (omega arith) cutoff_is_set
