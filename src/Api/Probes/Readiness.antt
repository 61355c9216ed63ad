-- ===== src/Api/Probes/Readiness.antt =====
-- pkg/api/probes.go: the answers of the readiness handler.
use golang_rest_api_template.Base.{◌≡◌, ◌≢◌, refl, Option, none, some, inl, inr, arith, Bytes}
use golang_rest_api_template.Http.{Context, Response, respond, empty}
use golang_rest_api_template.Errors.{Cause}
use golang_rest_api_template.Result.{ok, Io, Result-cases}
use golang_rest_api_template.Api.Probes.{
  RedisClient, no_redis, no_ping, pinger, MongoCollection, no_collection, no_client, client,
  readyz_handler, ping_postgres, ping_redis, ping_mongo,
}

module _ {W : Type 0} where
  -- All three clients are there and can ping, and each ping succeeds in the world that the one
  -- before it has left.
  abbrev pub IsReady :
      Option (Io W Cause (Unit {0})) → RedisClient W → MongoCollection W → W → Type 0
  IsReady (some postgres) (pinger redis) (client mongo) w =
      let w1 = (postgres w).1 in
      let w2 = (redis w1).1 in
      ((postgres w).0 ≡ ok tt) × (((redis w1).0 ≡ ok tt) × ((mongo w2).0 ≡ ok tt))
  IsReady _ _ _ w = ⊥

  -- The two answers, and when each is given.
  pub record IsVerdict (db : Option (Io W Cause (Unit {0}))) (redis_client : RedisClient W)
      (mongo_col : MongoCollection W) (c : Context) (w : W) (r : Response) : Type 0 where
    pub up : IsReady db redis_client mongo_col w → r ≡ respond c 200 empty
    pub only_up : r.status ≡ 200 → IsReady db redis_client mongo_col w
    pub down : r.status ≢ 200 → r.status ≡ 503

  module _ (db : Option (Io W Cause (Unit {0}))) (redis_client : RedisClient W)
      (mongo_col : MongoCollection W) (c : Context) (w : W) (r : Response) where
    blocked :
        r.status ≡ 503
        → (IsReady db redis_client mongo_col w → ⊥)
        → IsVerdict db redis_client mongo_col c w r
    blocked s not_ready = record {
      up = λ h. absurd (not_ready h);
      only_up = λ e. absurd (omega arith);
      down = λ e. s;
    }

    passed :
        r ≡ respond c 200 empty
        → IsReady db redis_client mongo_col w
        → IsVerdict db redis_client mongo_col c w r
    passed s ready = record {
      up = λ h. s;
      only_up = λ e. ready;
      down = λ e. absurd (e (rw s refl));
    }

  module _ (text : Cause → Bytes) where
    -- The readiness handler answers 200 exactly if there is a pool, a Redis client that can ping
    -- and a MongoDB client, and their pings succeed in this order, each in the world that the one
    -- before has left; every other answer is 503.
    pub readyz_handler-IsVerdict :
        (db : Option (Io W Cause (Unit {0}))) (redis_client : RedisClient W)
        (mongo_col : MongoCollection W) (c : Context) (w : W)
        → IsVerdict db redis_client mongo_col c w
            (readyz_handler text db redis_client mongo_col c w).0
    unfolding readyz_handler ping_postgres ping_redis ping_mongo
    readyz_handler-IsVerdict none rc mc c w = blocked none rc mc c w _ refl (λ h. h)
    readyz_handler-IsVerdict (some pg) no_redis mc c w = elim (Result-cases (pg w).0) [
      | inr (x, e) ↦ rw e (blocked (some pg) no_redis mc c w _ refl (λ h. h))
      | inl (u, e) ↦ rw e (blocked (some pg) no_redis mc c w _ refl (λ h. h))
    ]
    readyz_handler-IsVerdict (some pg) no_ping mc c w = elim (Result-cases (pg w).0) [
      | inr (x, e) ↦ rw e (blocked (some pg) no_ping mc c w _ refl (λ h. h))
      | inl (u, e) ↦ rw e (blocked (some pg) no_ping mc c w _ refl (λ h. h))
    ]
    readyz_handler-IsVerdict (some pg) (pinger rd) no_collection c w =
        elim (Result-cases (pg w).0) [
          | inr (x, e) ↦ rw e (blocked (some pg) (pinger rd) no_collection c w _ refl (λ h. h))
          | inl (u, e) ↦ elim (Result-cases (rd (pg w).1).0) [
            | inr (x, f) ↦
                rw (e, f) (blocked (some pg) (pinger rd) no_collection c w _ refl (λ h. h))
            | inl (v, f) ↦
                rw (e, f) (blocked (some pg) (pinger rd) no_collection c w _ refl (λ h. h))
          ]
        ]
    readyz_handler-IsVerdict (some pg) (pinger rd) no_client c w = elim (Result-cases (pg w).0) [
      | inr (x, e) ↦ rw e (blocked (some pg) (pinger rd) no_client c w _ refl (λ h. h))
      | inl (u, e) ↦ elim (Result-cases (rd (pg w).1).0) [
        | inr (x, f) ↦ rw (e, f) (blocked (some pg) (pinger rd) no_client c w _ refl (λ h. h))
        | inl (v, f) ↦ rw (e, f) (blocked (some pg) (pinger rd) no_client c w _ refl (λ h. h))
      ]
    ]
    readyz_handler-IsVerdict (some pg) (pinger rd) (client mg) c w =
        let block = blocked (some pg) (pinger rd) (client mg) c w in
        elim (Result-cases (pg w).0) [
          | inr (x, e) ↦ rw e (block _ refl (λ h. absurd (cc (e, h.0))))
          | inl (u, e) ↦ elim (Result-cases (rd (pg w).1).0) [
            | inr (x, f) ↦ rw (e, f) (block _ refl (λ h. absurd (cc (f, h.1.0))))
            | inl (v, f) ↦ elim (Result-cases (mg (rd (pg w).1).1).0) [
              | inr (x, g) ↦ rw (e, f, g) (block _ refl (λ h. absurd (cc (g, h.1.1))))
              | inl (z, g) ↦
                  rw (e, f, g) (passed (some pg) (pinger rd) (client mg) c w _ refl (e, (f, g)))
            ]
          ]
        ]
