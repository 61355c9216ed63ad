-- ===== src/Api/Probes.antt =====
-- pkg/api/probes.go: the liveness and the readiness handler. The pings are parameters; their deadline
-- is theirs.
pub mod Readiness
use golang_rest_api_template.Base.{not, Option, none, some, List, [], ◌∷◌, ◌++◌, Bytes, lit}
use golang_rest_api_template.Result.{Result, ok, err, Io, raise}
use golang_rest_api_template.Errors.{Cause, other}
use golang_rest_api_template.Http.{Context, Response, respond, empty, plain, Handler}

-- A `cache.Cache`: nil, one that has no `Ping`, or one that has.
pub data RedisClient (W : Type 0) : Type 0 where
  no_redis : RedisClient W
  no_ping : RedisClient W
  pinger : Io W Cause (Unit {0}) → RedisClient W

pub data MongoCollection (W : Type 0) : Type 0 where
  no_collection : MongoCollection W
  no_client : MongoCollection W
  client : Io W Cause (Unit {0}) → MongoCollection W

unfoldable livez : {W : Type 0} → Handler W
livez c w = (respond c 200 empty, w)

abbrev pub unavailable : (Cause → Bytes) → Context → Bytes → Cause → Response
unavailable text c name e = respond c 503 (plain (name ++ (lit ": " ++ text e)))

module _ {W : Type 0} where
  -- The pool is its ping, or nil.
  unfoldable ping_postgres : Option (Io W Cause (Unit {0})) → Io W Cause (Unit {0})
  ping_postgres none = raise (other (lit "database not configured"))
  ping_postgres (some ping) = ping

  unfoldable ping_redis : RedisClient W → Io W Cause (Unit {0})
  ping_redis no_redis = raise (other (lit "redis not configured"))
  ping_redis no_ping = raise (other (lit "redis client type does not support ping"))
  ping_redis (pinger ping) = ping

  unfoldable ping_mongo : MongoCollection W → Io W Cause (Unit {0})
  ping_mongo no_collection = raise (other (lit "mongo collection not configured"))
  ping_mongo no_client = raise (other (lit "mongo client nil"))
  ping_mongo (client ping) = ping

  module _ (text : Cause → Bytes) where
    -- A ping, and what follows where it succeeds.
    abbrev pub then_check :
        Context → Bytes → (W → Response × W) → Result Cause (Unit {0}) × W → Response × W
    then_check c name rest (ok u, w) = rest w
    then_check c name rest (err e, w) = (unavailable text c name e, w)

    unfoldable pub readyz_handler :
        Option (Io W Cause (Unit {0})) → RedisClient W → MongoCollection W → Handler W
    unfolding ping_postgres ping_redis ping_mongo
    readyz_handler db redis_client mongo_col c w =
        then_check c (lit "postgres")
          (λ w1.
            then_check c (lit "redis")
              (λ w2.
                then_check c (lit "mongo") (λ w3. (respond c 200 empty, w3))
                  (ping_mongo mongo_col w2))
              (ping_redis redis_client w1))
          (ping_postgres db w)

    -- `registerProbeRoutes`: in front of the middleware of the engine.
    unfoldable probe_routes :
        Option (Io W Cause (Unit {0}))
        → RedisClient W
        → MongoCollection W
        → List (Bytes × Handler W)
    unfolding livez readyz_handler
    probe_routes db redis_client mongo_col =
        (lit "/livez", livez) ∷ (lit "/readyz", readyz_handler db redis_client mongo_col) ∷ []
