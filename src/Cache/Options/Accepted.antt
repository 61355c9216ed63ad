-- ===== src/Cache/Options/Accepted.antt =====
-- pkg/cache/cache.go: the options that `redisOptionsFromEnv` accepts.
use golang_rest_api_template.Base.{
  ℕ, ◌≤◌, ◌≡◌, refl, subst, inl, inr, false, [], ◌∷◌, ◌++◌, arith, Bool-cases, Bytes, lit, is_empty,
  trim_space,
}
use golang_rest_api_template.Cache.Options.{
  database, dial, read, write, with_dial, with_read, with_write, options_with,
}
use golang_rest_api_template.Platform.{Duration, positive, malformed, not_positive}
use golang_rest_api_template.Cache.Options.{
  duration_from_env, duration_of, address, redis_options_from_env, and_then,
}
use golang_rest_api_template.Result.{ok, err, Result, ok-injective}
use golang_rest_api_template.Cache.Options.{Options, OptionError}

-- What the client may rely on: timeouts that end, and a peer that is checked unless both switches
-- say otherwise.
pub record IsSound (getenv : Bytes → Bytes) (o : Options) : Type 0 where
  pub addressed : is_empty o.addr ≡ false
  pub dial_ends : 1 ≤ o.dial_timeout
  pub read_ends : 1 ≤ o.read_timeout
  pub write_ends : 1 ≤ o.write_timeout

and_then_ok :
    {A B : Type 0} (r : Result OptionError A) (f : A → Result OptionError B) (b : B)
    → and_then r f ≡ ok b
    → (a : A) × (r ≡ ok a) × (f a ≡ ok b)
and_then_ok (ok a) f b e = (a, refl, e)
and_then_ok (err x) f b e = absurd (cc)

module _ (getenv : Bytes → Bytes) (parse_duration : Bytes → Duration)
    (exact : (s : Bytes) (d : ℕ) → parse_duration s ≡ positive d → 1 ≤ d) where
  duration_of-pos : (key s : Bytes) (d : ℕ) → duration_of key (parse_duration s) ≡ ok d → 1 ≤ d
  duration_of-pos key s d e = go (parse_duration s) (exact s) e
    where
      go : (r : Duration) → ((n : ℕ) → r ≡ positive n → 1 ≤ n) → duration_of key r ≡ ok d → 1 ≤ d
      go malformed h e = absurd (cc)
      go not_positive h e = absurd (cc)
      go (positive n) h e = let same = ok-injective e in omega (arith, h n refl)

  duration_from_env-pos :
      (key : Bytes) (default d : ℕ)
      → 1 ≤ default
      → duration_from_env getenv parse_duration key default ≡ ok d
      → 1 ≤ d
  unfolding duration_from_env
  duration_from_env-pos key default d h e = elim (Bool-cases (is_empty (trim_space (getenv key)))) [
    | inl f ↦ let same = ok-injective (rw f at e) in omega arith
    | inr f ↦ duration_of-pos key (trim_space (getenv key)) d (rw f at e)
  ]

  is_empty-port : (host port : Bytes) → is_empty (host ++ (lit ":" ++ port)) ≡ false
  is_empty-port [] port = refl
  is_empty-port (b ∷ host) port = refl

  address-filled : is_empty (address getenv parse_duration) ≡ false
  unfolding address
  address-filled = elim (Bool-cases (is_empty (trim_space (getenv (lit "REDIS_ADDR"))))) [
    | inl f ↦ rw f (is_empty-port _ _)
    | inr f ↦ rw f f
  ]

  -- The options that `redisOptionsFromEnv` accepts have an address that is not empty, and positive
  -- timeouts for dialing, reading and writing. Condition: what `ParseDuration` gives as positive
  -- is at least 1.
  pub redis_options_from_env-IsSound :
      (o : Options) → redis_options_from_env getenv parse_duration ≡ ok o → IsSound getenv o
  unfolding redis_options_from_env with_dial with_read with_write options_with
  redis_options_from_env-IsSound o e =
      let (n, _, e1) =
        and_then_ok (database getenv parse_duration) (with_dial getenv parse_duration) o e in
      let (d, p, e2) =
        and_then_ok (dial getenv parse_duration) (with_read getenv parse_duration n) o e1 in
      let (r, q, e3) =
        and_then_ok (read getenv parse_duration) (with_write getenv parse_duration n d) o e2 in
      let (w, z, e4) =
        and_then_ok (write getenv parse_duration)
          (λ w. ok (options_with getenv parse_duration n d r w)) o e3 in
      subst (IsSound getenv) (ok-injective e4) (record {
        addressed = address-filled;
        dial_ends = duration_from_env-pos (lit "REDIS_DIAL_TIMEOUT") 5000000000 d (omega arith) p;
        read_ends = duration_from_env-pos (lit "REDIS_READ_TIMEOUT") 3000000000 r (omega arith) q;
        write_ends = duration_from_env-pos (lit "REDIS_WRITE_TIMEOUT") 3000000000 w (omega arith) z;
      })
