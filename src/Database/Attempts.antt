-- ===== src/Database/Attempts.antt =====
-- pkg/database/db.go: the pools that `NewDatabase` leaves open, and the attempts it makes.
use golang_rest_api_template.Base.{
  ℕ, zero, suc, ◌+◌, ◌-◌, ◌≤◌, ◌<◌, ◌≡◌, refl, ap, ◌∙◌, inl, inr, true, Option, none, some, arith,
  Bytes, is_some,
}
use golang_rest_api_template.Platform.{Duration}
use golang_rest_api_template.Errors.{Cause}
use golang_rest_api_template.Result.{ok, Result, Result-cases, err}
use golang_rest_api_template.Database.{
  PoolConfig, Pgxpool, attempt, connect, new_database, else_sleep, keep_migrated, apply_schema,
  migrate, db_url, apply_pool_config,
}

-- The pools that are open, by their number, and the time slept. `NewWithConfig` opens a pool where
-- it succeeds and leaves none where it fails; the other calls open and close none.
pub record PoolLaws {W C Pool : Type 0} (x : Pgxpool W C Pool) : Type 0 where
  pub opened : W → ℕ
  pub slept : W → ℕ
  pub new_ok :
      (cfg : PoolConfig C) (w : W) (pool : Pool)
      → (x.new_with_config cfg w).0 ≡ ok pool
      → opened (x.new_with_config cfg w).1 ≡ opened w + 1
  pub new_err :
      (cfg : PoolConfig C) (w : W) (e : Cause)
      → (x.new_with_config cfg w).0 ≡ err e
      → opened (x.new_with_config cfg w).1 ≡ opened w
  pub new_slept : (cfg : PoolConfig C) (w : W) → slept (x.new_with_config cfg w).1 ≡ slept w
  pub ping_opened : (pool : Pool) (w : W) → opened (x.ping pool w).1 ≡ opened w
  pub ping_slept : (pool : Pool) (w : W) → slept (x.ping pool w).1 ≡ slept w
  pub exec_opened : (pool : Pool) (sql : Bytes) (w : W) → opened (x.exec pool sql w).1 ≡ opened w
  pub exec_slept : (pool : Pool) (sql : Bytes) (w : W) → slept (x.exec pool sql w).1 ≡ slept w
  pub close_opened : (pool : Pool) (w : W) → opened (x.close pool w) ≡ opened w - 1
  pub close_slept : (pool : Pool) (w : W) → slept (x.close pool w) ≡ slept w
  pub sleep_opened : (n : ℕ) (w : W) → opened (x.sleep n w) ≡ opened w
  pub sleep_slept : (n : ℕ) (w : W) → slept (x.sleep n w) ≡ slept w + n

abbrev pub count {ℓ} : {A : Type ℓ} → Option A → ℕ
count none = 0
count (some a) = 1

abbrev pub sleeping : ℕ → ℕ
sleeping zero = 0
sleeping (suc n) = 3000000000 + sleeping n

module _ {W C Pool : Type 0} (x : Pgxpool W C Pool) (laws : PoolLaws x) where
  open laws use {
    opened, slept, new_ok, new_err, new_slept, ping_opened, ping_slept, exec_opened, exec_slept,
    close_opened, close_slept, sleep_opened, sleep_slept,
  }

  abbrev count_ok : Result Cause Pool → ℕ
  count_ok (ok p) = 1
  count_ok (err e) = 0

  -- What a call leaves: one more open pool exactly if it returns one, and at most some sleep.
  pub record IsTidy (w : W) (most : ℕ) (found : ℕ) (v : W) : Type 0 where
    pub pools : opened v ≡ opened w + found
    pub patient : slept v ≤ slept w + most

  attempt-IsTidy :
      (cfg : PoolConfig C) (w : W) → IsTidy w 0 (count_ok (attempt x cfg w).0) (attempt x cfg w).1
  attempt-IsTidy cfg w = elim (Result-cases (x.new_with_config cfg w).0) [
    | inl (pool, e) ↦ elim (Result-cases (x.ping pool (x.new_with_config cfg w).1).0) [
      | inl (u, f) ↦
          rw (e, f)
            (record {
              pools = ping_opened pool _ ∙ new_ok cfg w pool e;
              patient = omega (arith, ping_slept pool (x.new_with_config cfg w).1, new_slept cfg w);
            })
      | inr (c, f) ↦
          rw (e, f)
            (record {
              pools =
                  close_opened pool _
                  ∙ ap (λ n. n - 1) (ping_opened pool _ ∙ new_ok cfg w pool e)
                  ∙ omega arith;
              patient = omega (
                arith,
                close_slept pool (x.ping pool (x.new_with_config cfg w).1).1,
                ping_slept pool (x.new_with_config cfg w).1,
                new_slept cfg w,
              );
            })
    ]
    | inr (c, e) ↦ rw e (record {
      pools = new_err cfg w c e ∙ omega arith;
      patient = omega (arith, new_slept cfg w);
    })
  ]

  else_sleep-IsTidy :
      (again : W → Option Pool × W) (most : ℕ) (w : W) (r : Result Cause Pool × W)
      → IsTidy w 0 (count_ok r.0) r.1
      → ((v : W) → IsTidy v most (count (again v).0) (again v).1)
      → IsTidy w (3000000000 + most) (count (else_sleep x again r).0) (else_sleep x again r).1
  else_sleep-IsTidy again most w (ok pool, v) t h = record {
    pools = t.pools;
    patient = let p = t.patient in omega arith;
  }
  else_sleep-IsTidy again most w (err c, v) t h =
      let later = h (x.sleep 3000000000 v) in
      record {
        pools = let a = t.pools in let b = later.pools in omega (arith, sleep_opened 3000000000 v);
        patient =
            let a = t.patient in let b = later.patient in omega (arith, sleep_slept 3000000000 v);
      }

  connect-IsTidy :
      (n : ℕ) (cfg : PoolConfig C) (w : W)
      → IsTidy w (sleeping n) (count (connect x n cfg w).0) (connect x n cfg w).1
  unfolding connect
  connect-IsTidy zero cfg w = record { pools = omega arith; patient = omega arith }
  connect-IsTidy (suc n) cfg w =
      else_sleep-IsTidy (connect x n cfg) (sleeping n) w (attempt x cfg w) (attempt-IsTidy cfg w)
        (connect-IsTidy n cfg)

  keep-IsTidy :
      (pool : Pool) (most : ℕ) (w : W) (r : Result Cause (Unit {0}) × W)
      → IsTidy w most 1 r.1
      → IsTidy w most (count (keep_migrated x pool r).0) (keep_migrated x pool r).1
  keep-IsTidy pool most w (ok u, v) t = t
  keep-IsTidy pool most w (err c, v) t = record {
    pools = let a = t.pools in omega (arith, close_opened pool v);
    patient = let a = t.patient in omega (arith, close_slept pool v);
  }

  migrate-IsTidy :
      (schema_sql : Bytes) (most : ℕ) (w : W) (r : Option Pool × W)
      → IsTidy w most (count r.0) r.1
      → IsTidy w most (count (migrate x schema_sql r).0) (migrate x schema_sql r).1
  unfolding apply_schema
  migrate-IsTidy schema_sql most w (none, v) t = t
  migrate-IsTidy schema_sql most w (some pool, v) t =
      keep-IsTidy pool most w (x.exec pool schema_sql v) (record {
        pools = exec_opened pool schema_sql v ∙ t.pools;
        patient = let a = t.patient in omega (arith, exec_slept pool schema_sql v);
      })

  module _ (getenv : Bytes → Bytes) (parse_duration : Bytes → Duration) (schema_sql : Bytes) where
    -- `NewDatabase` leaves one more pool open than before if it returns a pool, and as many as
    -- before if it returns nil, and sleeps for at most 9 seconds. Condition: pgxpool opens a pool
    -- where `NewWithConfig` succeeds and none where it fails, `Close` closes one, and the other
    -- calls open and close none.
    pub new_database-IsTidy :
        (w : W)
        → let r = new_database x getenv parse_duration schema_sql w in
          IsTidy w 9000000000 (count r.0) r.1
    unfolding new_database
    new_database-IsTidy w = elim (Result-cases (x.parse_config (db_url x getenv))) [
      | inl (cfg, e) ↦ rw e (migrate-IsTidy schema_sql 9000000000 w _ (connect-IsTidy 3 _ w))
      | inr (c, e) ↦ rw e (record { pools = omega arith; patient = omega arith })
    ]

module _ {W C Pool : Type 0} (x : Pgxpool W C Pool) where
  -- The world in which the loop makes attempt `i`, counted from 0, if those before it have failed.
  unfoldable pub world_of_attempt : ℕ → PoolConfig C → W → W
  world_of_attempt zero cfg w = w
  world_of_attempt (suc i) cfg w = world_of_attempt i cfg (x.sleep 3000000000 (attempt x cfg w).1)

  found_later :
      (again : W → Option Pool × W) (r : Result Cause Pool × W)
      → ((c : Cause) → r.0 ≡ err c → is_some (again (x.sleep 3000000000 r.1)).0 ≡ true)
      → is_some (else_sleep x again r).0 ≡ true
  found_later again (ok pool, v) h = refl
  found_later again (err c, v) h = h c refl

  connect_finds :
      (n i : ℕ) (cfg : PoolConfig C) (w : W) (pool : Pool)
      → i < n
      → (attempt x cfg (world_of_attempt i cfg w)).0 ≡ ok pool
      → is_some (connect x n cfg w).0 ≡ true
  unfolding connect world_of_attempt
  connect_finds zero i cfg w pool h e = absurd (omega arith)
  connect_finds (suc n) zero cfg w pool h e =
      found_later (connect x n cfg) (attempt x cfg w) (λ c f. absurd (cc (e, f)))
  connect_finds (suc n) (suc i) cfg w pool h e =
      found_later (connect x n cfg) (attempt x cfg w)
        (λ c f. connect_finds n i cfg (x.sleep 3000000000 (attempt x cfg w).1) pool (omega arith) e)

  migrated :
      (schema_sql : Bytes) (r : Option Pool × W)
      → ((pool : Pool) (w : W) → (x.exec pool schema_sql w).0 ≡ ok tt)
      → is_some r.0 ≡ true
      → is_some (migrate x schema_sql r).0 ≡ true
  unfolding apply_schema
  migrated schema_sql (none, v) h e = e
  migrated schema_sql (some pool, v) h e = rw (h pool v, keep_migrated) refl

  module _ (getenv : Bytes → Bytes) (parse_duration : Bytes → Duration) (schema_sql : Bytes) where
    -- `NewDatabase` returns a pool if one of the three attempts, in the world in which the loop
    -- makes it when those before have failed, opens a pool that answers the ping. Conditions: the
    -- URL parses, and the schema applies to any pool.
    pub new_database_connects :
        (cfg : PoolConfig C) (i : ℕ) (pool : Pool) (w : W)
        → x.parse_config (db_url x getenv) ≡ ok cfg
        → i < 3
        → (attempt x
            (apply_pool_config getenv parse_duration cfg)
            (world_of_attempt i (apply_pool_config getenv parse_duration cfg) w)).0
          ≡ ok pool
        → ((p : Pool) (v : W) → (x.exec p schema_sql v).0 ≡ ok tt)
        → is_some (new_database x getenv parse_duration schema_sql w).0 ≡ true
    unfolding new_database
    new_database_connects cfg i pool w parsed few answered applies = rw parsed (
        migrated schema_sql _ applies
          (connect_finds 3 i (apply_pool_config getenv parse_duration cfg) w pool few answered))
