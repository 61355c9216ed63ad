-- ===== src/Database/Sizes.antt =====
-- pkg/database/db.go: the sizes that `applyPoolConfig` sets.
use golang_rest_api_template.Base.{
  ℕ, ◌≤◌, inl, inr, Option, none, some, arith, ltb, if◌then◌else◌, Bool-cases, Bytes, lit, is_empty,
  trim_space,
}
use golang_rest_api_template.Base.Integers.{ℤ, pos, negsuc}
use golang_rest_api_template.Base.Integers.{ℤ, atoi, positive_or, pos}
use golang_rest_api_template.Platform.{Duration}
use golang_rest_api_template.Database.{
  PoolConfig, apply_pool_config, getenv_positive_int, clamp_to_int32, max_int32,
}

positive_or_pos : (default : ℕ) (n : Option ℤ) → 1 ≤ default → 1 ≤ positive_or default n
positive_or_pos default none h = h
positive_or_pos default (some (negsuc n)) h = h
positive_or_pos default (some (pos n)) h = ground arith

clamped :
    (n m : ℕ)
    → 1 ≤ n
    → 1 ≤ m
    → let cap = clamp_to_int32 (pos n) in
      let low = clamp_to_int32 (pos (if ltb n m then n else m)) in
      (1 ≤ cap) × (cap ≤ max_int32) × (1 ≤ low) × (low ≤ cap)
clamped n m h k = ground arith

pub record IsSized {C : Type 0} (cfg : PoolConfig C) : Type 0 where
  pub some_connection : 1 ≤ cfg.max_conns
  pub fits_int32 : cfg.max_conns ≤ max_int32
  pub some_idle : 1 ≤ cfg.min_idle_conns
  pub idle_capped : cfg.min_idle_conns ≤ cfg.max_conns

module _ (getenv : Bytes → Bytes) (parse_duration : Bytes → Duration) where
  getenv_positive_int-pos :
      (key : Bytes) (default : ℕ) → 1 ≤ default → 1 ≤ getenv_positive_int getenv key default
  unfolding getenv_positive_int
  getenv_positive_int-pos key default h = elim (Bool-cases (is_empty (trim_space (getenv key)))) [
    | inl e ↦ rw e h
    | inr e ↦ rw e (positive_or_pos default (atoi (trim_space (getenv key))) h)
  ]

  -- For every environment, the sizes of the pool that `applyPoolConfig` sets are at least 1 and
  -- fit 32 bits, and the idle connections are no more than the connections.
  pub apply_pool_config-IsSized :
      {C : Type 0} (cfg : PoolConfig C) → IsSized (apply_pool_config getenv parse_duration cfg)
  unfolding apply_pool_config
  apply_pool_config-IsSized cfg =
      let (a, b, c, d) =
        clamped _ _ (getenv_positive_int-pos (lit "POSTGRES_MAX_OPEN_CONNS") 25 (omega arith))
          (getenv_positive_int-pos (lit "POSTGRES_MAX_IDLE_CONNS") 5 (omega arith)) in
      record { some_connection = a; fits_int32 = b; some_idle = c; idle_capped = d }
