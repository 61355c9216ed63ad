-- ===== src/Server/Closing.antt =====
-- cmd/server/main.go: what is closed when the process ends.
use golang_rest_api_template.Base.{
  ◌≡◌, refl, sym, ap, ◌∙◌, ◌≢◌, inl, inr, Bool, true, false, List, [], ◌∷◌, ◌++◌, if◌then◌else◌,
  Bool-cases, any,
}
use mathlib.Core.List.{append-nil, append_assoc}
use mathlib.Core.Path.{ap₂}
use golang_rest_api_template.Server.{
  failed, closed, signalled, returned, fatal, End, Action, Serving, Answers, setups, Setup,
  set_jwt_signing_key, set_api_secret_key, init_tracing, new_redis_client, setup_mongo_db,
  new_publisher, new_logger, new_database, new_router, panicked, route, listen_and_serve,
  shutdown_server, close_database, sync_logger, close_publisher, shutdown_tracing, start, serve,
  main, Process,
}

abbrev pub is_closing : Action → Bool
is_closing close_database = true
is_closing sync_logger = true
is_closing close_publisher = true
is_closing shutdown_tracing = true
is_closing _ = false

abbrev IsOpen : Action → Type 0
IsOpen a = is_closing a ≡ false

abbrev pub all_succeed : List Setup → Bool
all_succeed [] = true
all_succeed (s ∷ rest) = if s.succeeds then all_succeed rest else false

abbrev pub actions_of : List Setup → List Action
actions_of [] = []
actions_of (s ∷ rest) = s.action ∷ actions_of rest

abbrev pub deferred_by : List Setup → List Action
deferred_by [] = []
deferred_by (s ∷ rest) = deferred_by rest ++ s.defers

abbrev pub served : Serving → List Action
served signalled = listen_and_serve ∷ shutdown_server ∷ []
served _ = listen_and_serve ∷ []

-- Whether all of the tests hold.
abbrev pub every : List Bool → Bool
every [] = true
every (b ∷ rest) = if b then every rest else false

-- Whether each call of the start in front of the router succeeds.
abbrev pub all_ok : Answers → Bool
all_ok a = every (
    a.jwt_key_valid ∷ a.api_key_valid ∷ a.tracing_ok ∷ a.redis_ok ∷ a.mongo_ok ∷ a.publisher_ok
    ∷ a.logger_ok ∷ a.database_ok ∷ [])

-- The calls of the start in their order.
abbrev pub start_actions : List Action
start_actions =
    set_jwt_signing_key ∷ set_api_secret_key ∷ init_tracing ∷ new_redis_client ∷ setup_mongo_db
    ∷ new_publisher ∷ new_logger ∷ new_database ∷ new_router ∷ []

abbrev pub closings : List Action
closings = close_database ∷ sync_logger ∷ close_publisher ∷ shutdown_tracing ∷ []

-- The ends of a process.
pub record IsOrderly (a : Answers) (how : Serving) (e : End × List Action) : Type 0 where
  pub ends_well :
      all_ok a ≡ true
      → a.router_ok ≡ true
      → how ≢ failed
      → e ≡ (returned, start_actions ++ (served how ++ closings))
  pub ends_in_panic :
      all_ok a ≡ true → a.router_ok ≡ false → e ≡ (panicked, start_actions ++ closings)
  pub ends_at_once : (e.0 ≡ fatal) → any is_closing e.1 ≡ false
  pub one_or_other : e.0 ≡ returned → (all_ok a ≡ true) × ((a.router_ok ≡ true) × (how ≢ failed))
  pub panic_or_other : e.0 ≡ panicked → (all_ok a ≡ true) × (a.router_ok ≡ false)

module _ (router_ok : Bool) where
  start_ok :
      (ss : List Setup) (how : Serving) (p : Process)
      → all_succeed ss ≡ true
      → start ss router_ok how p
        ≡ route router_ok how
            (record { trace = p.trace ++ actions_of ss; deferred = deferred_by ss ++ p.deferred })
  unfolding start
  start_ok [] how p e =
      ap (λ l. route router_ok how (record { trace = l; deferred = p.deferred }))
        (sym (append-nil p.trace))
  start_ok (s ∷ rest) how p e = elim (Bool-cases s.succeeds) [
    | inl f ↦ rw f (
        start_ok rest how _ (rw f at e)
        ∙ ap₂ (λ l m. route router_ok how (record { trace = l; deferred = m }))
            (append_assoc p.trace (s.action ∷ []) (actions_of rest))
            (sym (append_assoc (deferred_by rest) s.defers p.deferred)))
    | inr f ↦ absurd (cc (f, e))
  ]

  open_last :
      (xs : List Action) (a : Action)
      → any is_closing xs ≡ false
      → is_closing a ≡ false
      → any is_closing (xs ++ a ∷ []) ≡ false
  open_last [] a h k = rw k refl
  open_last (x ∷ xs) a h k = elim (Bool-cases (is_closing x)) [
    | inl e ↦ absurd (cc (e, h))
    | inr e ↦ rw e (open_last xs a (rw e at h) k)
  ]

  serve_fatal :
      (how : Serving) (p : Process)
      → (serve how p).0 ≡ fatal
      → any is_closing p.trace ≡ false
      → any is_closing (serve how p).1 ≡ false
  unfolding serve
  serve_fatal failed p e h = open_last p.trace listen_and_serve h refl
  serve_fatal closed p e h = absurd (cc)
  serve_fatal signalled p e h = absurd (cc)

  route_fatal :
      (how : Serving) (p : Process)
      → (route router_ok how p).0 ≡ fatal
      → any is_closing p.trace ≡ false
      → any is_closing (route router_ok how p).1 ≡ false
  unfolding route
  route_fatal how p e h = elim (Bool-cases router_ok) [
    | inl r ↦ rw r (serve_fatal how _ (rw r at e) (open_last p.trace new_router h refl))
    | inr r ↦ absurd (cc (rw r at e))
  ]

  start_fatal :
      (ss : List Setup) (how : Serving) (p : Process)
      → any is_closing (actions_of ss) ≡ false
      → (start ss router_ok how p).0 ≡ fatal
      → any is_closing p.trace ≡ false
      → any is_closing (start ss router_ok how p).1 ≡ false
  unfolding start
  start_fatal [] how p k e h = route_fatal how p e h
  start_fatal (s ∷ rest) how p k e h = elim (Bool-cases (is_closing s.action)) [
    | inl c ↦ absurd (cc (c, k))
    | inr c ↦ elim (Bool-cases s.succeeds) [
      | inl f ↦
          rw f (start_fatal rest how _ (rw c at k) (rw f at e) (open_last p.trace s.action h c))
      | inr f ↦ rw f (open_last p.trace s.action h c)
    ]
  ]

  serve_returned : (how : Serving) (p : Process) → (serve how p).0 ≡ returned → how ≢ failed
  unfolding serve
  serve_returned failed p e f = cc
  serve_returned closed p e f = cc
  serve_returned signalled p e f = cc

  route_returned :
      (how : Serving) (p : Process)
      → (route router_ok how p).0 ≡ returned
      → (router_ok ≡ true) × (how ≢ failed)
  unfolding route
  route_returned how p e = elim (Bool-cases router_ok) [
    | inl r ↦ (r, serve_returned how _ (rw r at e))
    | inr r ↦ absurd (cc (rw r at e))
  ]

  serve_no_panic : (how : Serving) (p : Process) → (serve how p).0 ≢ panicked
  unfolding serve
  serve_no_panic failed p e = cc
  serve_no_panic closed p e = cc
  serve_no_panic signalled p e = cc

  start_panicked :
      (ss : List Setup) (how : Serving) (p : Process)
      → (start ss router_ok how p).0 ≡ panicked
      → (all_succeed ss ≡ true) × (router_ok ≡ false)
  unfolding start route
  start_panicked [] how p e = elim (Bool-cases router_ok) [
    | inl r ↦ absurd (serve_no_panic how _ (rw r at e))
    | inr r ↦ (refl, r)
  ]
  start_panicked (s ∷ rest) how p e = elim (Bool-cases s.succeeds) [
    | inl f ↦ rw f (start_panicked rest how _ (rw f at e))
    | inr f ↦ absurd (cc (f, e))
  ]

  start_returned :
      (ss : List Setup) (how : Serving) (p : Process)
      → (start ss router_ok how p).0 ≡ returned
      → (all_succeed ss ≡ true) × ((router_ok ≡ true) × (how ≢ failed))
  unfolding start
  start_returned [] how p e = (refl, route_returned how p e)
  start_returned (s ∷ rest) how p e = elim (Bool-cases s.succeeds) [
    | inl f ↦ rw f (start_returned rest how _ (rw f at e))
    | inr f ↦ absurd (cc (f, e))
  ]

  serve_well :
      (how : Serving) (p : Process)
      → how ≢ failed
      → serve how p ≡ (returned, p.trace ++ (served how ++ p.deferred))
  unfolding serve
  serve_well failed p h = absurd (h refl)
  serve_well closed p h =
      ap (λ l. (returned, l)) (append_assoc p.trace (listen_and_serve ∷ []) p.deferred)
  serve_well signalled p h =
      ap (λ l. (returned, l))
        (append_assoc (p.trace ++ listen_and_serve ∷ []) (shutdown_server ∷ []) p.deferred
          ∙ append_assoc p.trace (listen_and_serve ∷ []) (shutdown_server ∷ p.deferred))

-- For all answers of the calls of the start, and all ways in which the listener ends: if every
-- call succeeds, `NewRouter` does not panic and the listener does not fail, `main` makes the nine
-- calls in their order, serves, and closes the database, the logger, the publisher and the tracing
-- in that order; if only `NewRouter` panics, it does not serve, and closes the same; if it ends by
-- `log.Fatalf`, nothing has been closed; it returns only if every call succeeded, without a panic
-- or a failure of the listener, and it panics only if every call before succeeded.
pub main-IsOrderly : (a : Answers) (how : Serving) → IsOrderly a how (main a how)
unfolding main setups route
main-IsOrderly a how =
    let p : Process = record { trace = []; deferred = [] } in
    record {
      ends_well =
          λ h r k. start_ok a.router_ok (setups a) how p h ∙ rw r (serve_well a.router_ok how _ k);
      ends_in_panic = λ h r. start_ok a.router_ok (setups a) how p h ∙ rw r refl;
      ends_at_once = λ e. start_fatal a.router_ok (setups a) how p refl e refl;
      one_or_other = λ e. start_returned a.router_ok (setups a) how p e;
      panic_or_other = λ e. start_panicked a.router_ok (setups a) how p e;
    }
