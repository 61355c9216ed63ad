-- ===== src/Examples/Tokens.antt =====
-- The refresh tokens in the world in memory.
use golang_rest_api_template.Base.{
  ◌≤◌, ◌≡◌, refl, ◌⊎◌, false, none, some, List, [], ◌∷◌, ◌++◌, arith, lit, trim_space, hex_encode,
}
use golang_rest_api_template.Repository.Users
use golang_rest_api_template.Auth.Tokens.{duration_from_env, refresh_token_ttl}
use golang_rest_api_template.Auth.Roles.{effective_role, valid_role}
use golang_rest_api_template.Auth.Keys.{generate_token, sign_claims}
use golang_rest_api_template.Auth.Tokens.{hash_refresh_token, new_opaque_token, access_token_ttl}
use golang_rest_api_template.Repository.Tables.Tokens.{IsNumbered, Evolves}
use golang_rest_api_template.Auth.Denylist.{TokenDenylist, noop_denylist}
use golang_rest_api_template.Examples.World.{
  World, memory_driver, memory_laws, platform, platform-Frame, key_32, table,
}
use golang_rest_api_template.Result.{ok, is_ok}
use golang_rest_api_template.Service.Users.Reuse.{Reuse, refresh_tokens-Reuse}
use golang_rest_api_template.Repository.Users.Unique.{IsUnique, create-IsUnique}
use golang_rest_api_template.Models.{User, RefreshToken}
use golang_rest_api_template.Repository.Driver.{exec, exec_tx, begin_tx, commit}
use golang_rest_api_template.Repository.RefreshTokens.{find_by_hash, rotate_atomically}
use golang_rest_api_template.Repository.RefreshTokens.History.{
  StoreCall, revokes_family, creates, after_calls-Evolves, after_calls, rotate_once,
}
use golang_rest_api_template.Repository.Tables.{
  consume_refresh_token_if_active, create_refresh_token, get_refresh_token_by_hash, get_user_by_id,
}
use golang_rest_api_template.Service.Users.{
  refresh_tokens, refresh_with, present_row, rotate, rotate_as, after_rotation,
}
use golang_rest_api_template.Repository.RefreshTokens.Rotation.{rotate_atomically-Rotated, Rotated}
use golang_rest_api_template.Service.Users.{TokenPair}
use golang_rest_api_template.Service.Users.SingleUse.{refresh_single_use}
use golang_rest_api_template.Service.Users.Rotation.{refresh_sql}

abbrev pub ada : User
ada = record {
  id = 7;
  username = lit "ada";
  password = lit "pw";
  role = lit "user";
  created_at = 0;
  updated_at = 0;
}

abbrev first_token : RefreshToken
first_token = record {
  id = 1;
  user_id = 7;
  token_hash = lit "74";
  family_id = lit "f";
  expires_at = 2000;
  consumed_at = none;
  revoked_at = none;
  created_at = 0;
  updated_at = 0;
}

abbrev second_token : RefreshToken
second_token = record first_token { id = 0; token_hash = lit "u" }

abbrev pub start : World
start = record {
  tables = record {
    books = table [] 1;
    users = table (ada ∷ []) 8;
    tokens = table (first_token ∷ []) 2;
  };
  clock = 1000;
  draws = 40;
  jwt_key = key_32;
  api_key = key_32;
}

abbrev pub no_denylist : TokenDenylist World
no_denylist = noop_denylist

start-IsNumbered : IsNumbered start.tables
start-IsNumbered = (omega arith, tt)

abbrev rotated : World
rotated = (rotate_atomically memory_driver 1 1000 second_token start).1

abbrev stored : RefreshToken
stored = record second_token { id = 2; created_at = 1000; updated_at = 1000 }

abbrev calls : List StoreCall
calls = revokes_family (lit "f") 1001 ∷ creates (record second_token { token_hash = lit "v" }) ∷ []

rotation_ok : (rotate_atomically memory_driver 1 1000 second_token start).0 ≡ ok stored
unfolding rotate_atomically begin_tx exec_tx commit exec consume_refresh_token_if_active
    create_refresh_token
rotation_ok = refl

rotate_once_example :
    is_ok
      (rotate_atomically memory_driver 1 1002 second_token
        (after_calls memory_driver calls rotated)).0
    ≡ false
rotate_once_example =
    rotate_once memory_driver memory_laws 1 1000 1002 second_token second_token stored calls start
      start-IsNumbered rotation_ok

rotate_atomically-Rotated_example :
    ((rotated.tables ≡ start.tables) ⊎ Rotated 1 1000 second_token start.tables rotated.tables)
    × ((r : RefreshToken)
        → (rotate_atomically memory_driver 1 1000 second_token start).0 ≡ ok r
        → Rotated 1 1000 second_token start.tables rotated.tables)
rotate_atomically-Rotated_example =
    rotate_atomically-Rotated memory_driver memory_laws 1 1000 second_token start

after_calls-Evolves_example : Evolves start.tables (after_calls memory_driver calls start).tables
after_calls-Evolves_example = after_calls-Evolves memory_driver memory_laws calls start

abbrev refreshed : World
refreshed =
    (refresh_sql platform memory_driver memory_laws platform-Frame no_denylist (lit "t") start).1

abbrev pair : TokenPair
pair = record { access_token = lit "ada" ++ 40 ∷ []; refresh_token = 41 ∷ []; expires_in = 300 }

refresh_succeeds :
    (refresh_sql platform memory_driver memory_laws platform-Frame no_denylist (lit "t") start).0
    ≡ ok pair
unfolding rotate_atomically begin_tx exec_tx commit exec consume_refresh_token_if_active
    create_refresh_token refresh_tokens refresh_with find_by_hash get_refresh_token_by_hash
    hash_refresh_token hex_encode present_row rotate rotate_as after_rotation Users.find_by_id
    get_user_by_id generate_token sign_claims new_opaque_token effective_role valid_role
    access_token_ttl duration_from_env refresh_token_ttl trim_space
refresh_succeeds = refl

refresh_single_use_example :
    is_ok
      (refresh_sql platform memory_driver memory_laws platform-Frame no_denylist
        (lit "t")
        (after_calls memory_driver calls refreshed)).0
    ≡ false
refresh_single_use_example =
    refresh_single_use platform memory_driver memory_laws platform-Frame no_denylist (lit "t") pair
      calls start (after_calls memory_driver calls refreshed) start-IsNumbered refresh_succeeds refl

-- The first token, already used.
abbrev pub used_token : RefreshToken
used_token = record first_token { consumed_at = some 900 }

abbrev pub after_use : World
after_use = record start {
  tables = record {
    books = table [] 1;
    users = table (ada ∷ []) 8;
    tokens = table (used_token ∷ []) 2;
  };
}

pub used_token_found :
    (find_by_hash memory_driver (hash_refresh_token platform (lit "t")) after_use).0 ≡ ok used_token
unfolding find_by_hash exec get_refresh_token_by_hash hash_refresh_token hex_encode
used_token_found = refl

pub clock_in_time :
    (platform.time_now
      (find_by_hash memory_driver (hash_refresh_token platform (lit "t")) after_use).1).0
    ≤ used_token.expires_at
unfolding find_by_hash exec get_refresh_token_by_hash hash_refresh_token hex_encode
clock_in_time = omega arith

refresh_tokens-Reuse_example :
    Reuse platform memory_driver memory_laws no_denylist (lit "f") (
      refresh_sql platform memory_driver memory_laws platform-Frame no_denylist (lit "t") after_use)
refresh_tokens-Reuse_example =
    refresh_tokens-Reuse platform memory_driver memory_laws no_denylist (lit "t") used_token
      after_use refl used_token_found refl refl clock_in_time

abbrev newcomer : User
newcomer = record ada { id = 0; username = lit "bob" }

create-IsUnique_example : IsUnique (Users.create memory_driver newcomer start).1.tables.users.rows
create-IsUnique_example = create-IsUnique memory_driver memory_laws newcomer start (tt, tt)
