-- ===== src/Middleware/RateLimit/Window.antt =====
-- pkg/middleware/rate_limit.go: the memory store over the requests that fall into one window.
use golang_rest_api_template.Base.{
  ℕ, ◌+◌, ◌-◌, ◌<◌, ◌≡◌, refl, sym, ap, ◌∙◌, subst, inl, inr, true, false, not, none, some, List,
  [], ◌∷◌, arith, ltb, leb, if◌then◌else◌, Bool-cases, Option-cases, All, Bytes, ◌=s◌, =s_sound,
  =s_refl,
}
use mathlib.Core.Option.{some-injective}
use golang_rest_api_template.Middleware.RateLimit.{
  MemoryWindow, is_over, prune_expired, window_at, put_window, memory_allow, current_window,
  fresh_window,
}

find-prune :
    (key : Bytes) (now : ℕ) (ws : List MemoryWindow) (w : MemoryWindow)
    → window_at key ws ≡ some w
    → is_over now w ≡ false
    → window_at key (prune_expired now ws) ≡ some w
unfolding prune_expired
find-prune key now [] w e h = cc
find-prune key now (v ∷ ws) w e h = ground (arith, find-prune key now ws w)

find-put :
    (key : Bytes) (w : MemoryWindow) (ws : List MemoryWindow)
    → window_at key (put_window w ws) ≡ (if w.key =s key then some w else window_at key ws)
unfolding put_window
find-put key w [] = refl
find-put key w (v ∷ ws) = elim (Bool-cases (v.key =s w.key)) [
  | inl e ↦
      rw (e, =s_sound v.key w.key e)
        (elim (Bool-cases (w.key =s key)) [ inl h ↦ rw h | inr h ↦ rw h ])
  | inr e ↦ rw e (elim (Bool-cases (v.key =s key)) [
    | inl h ↦ elim (Bool-cases (w.key =s key)) [
      | inl k ↦ absurd (ground (arith, =s_sound v.key key h, =s_sound w.key key k, =s_refl key))
      | inr k ↦ rw (h, k)
    ]
    | inr h ↦ rw h (find-put key w ws)
  ])
]

-- A request: its client, and the time that `Allow` reads.
pub record Arrival : Type 0 where
  pub client : Bytes
  pub at : ℕ

-- How many requests of a client there are, and how many of them the store allows in turn.
abbrev pub counted : Bytes → List Arrival → ℕ
counted key [] = 0
counted key (a ∷ arrivals) =
    let rest = counted key arrivals in if a.client =s key then rest + 1 else rest

unfoldable pub granted : (limit window : ℕ) (key : Bytes) → List Arrival → List MemoryWindow → ℕ
granted limit window key [] ws = 0
granted limit window key (a ∷ arrivals) ws =
    let (v, ws') = memory_allow a.client limit window a.at ws in
    let rest = granted limit window key arrivals ws' in
    if a.client =s key then (if v.allowed then rest + 1 else rest) else rest

-- `min`.
abbrev pub lesser : ℕ → ℕ → ℕ
lesser a b = if leb a b then a else b

abbrev pub IsBefore : ℕ → List Arrival → Type 0
IsBefore reset arrivals = All (λ a. a.at < reset) arrivals

find-key :
    (key : Bytes) (ws : List MemoryWindow) (w : MemoryWindow)
    → window_at key ws ≡ some w
    → w.key ≡ key
find-key key [] w e = absurd (cc e)
find-key key (v ∷ ws) w e = elim (Bool-cases (v.key =s key)) [
  | inl h ↦ ap (λ x. x.key) (sym (some-injective v w (rw h at e))) ∙ =s_sound v.key key h
  | inr h ↦ find-key key ws w (rw h at e)
]

current-key :
    (key : Bytes) (now window : ℕ) (ws : List MemoryWindow)
    → (current_window key now window (window_at key ws)).key ≡ key
current-key key now window ws = elim (Option-cases (window_at key ws)) [
  | inl e ↦ rw e refl
  | inr (w, e) ↦
      rw e (elim (Bool-cases (is_over now w)) [
        | inl h ↦ rw h refl
        | inr h ↦ rw h (find-key key ws w e)
      ])
]

-- What `Allow` does once the window of the client is known.
allow_current :
    (key : Bytes) (limit window now : ℕ) (ws : List MemoryWindow) (w : MemoryWindow)
    → current_window key now window (window_at key (prune_expired now ws)) ≡ w
    → w.key ≡ key
    → ((memory_allow key limit window now ws).0.allowed ≡ not (ltb limit (w.count + 1)))
      × (window_at key (memory_allow key limit window now ws).1
          ≡ some (record w { count = w.count + 1 }))
unfolding memory_allow
allow_current key limit window now ws w e same =
    rw
      (e, find-put key (record w { count = w.count + 1 }) (prune_expired now ws), same, =s_refl key)
      (elim (Bool-cases (ltb limit (w.count + 1))) [
        | inl h ↦ rw h (refl, refl)
        | inr h ↦ rw h (refl, refl)
      ])

-- A request in the window of its client adds one to the count, and leaves the end of the window.
allow_in_window :
    (key : Bytes) (limit window now : ℕ) (ws : List MemoryWindow) (w : MemoryWindow)
    → window_at key ws ≡ some w
    → is_over now w ≡ false
    → ((memory_allow key limit window now ws).0.allowed ≡ not (ltb limit (w.count + 1)))
      × (window_at key (memory_allow key limit window now ws).1
          ≡ some (record w { count = w.count + 1 }))
allow_in_window key limit window now ws w e h =
    allow_current key limit window now ws w (rw (find-prune key now ws w e h, h) refl)
      (find-key key ws w e)

-- A request of another client leaves the window as it is.
allow_other :
    (key client : Bytes) (limit window now : ℕ) (ws : List MemoryWindow) (w : MemoryWindow)
    → (client =s key) ≡ false
    → window_at key ws ≡ some w
    → is_over now w ≡ false
    → window_at key (memory_allow client limit window now ws).1 ≡ some w
unfolding memory_allow
allow_other key client limit window now ws w other e h =
    rw
      (
        find-put key _ (prune_expired now ws),
        current-key client now window (prune_expired now ws),
        other,
      )
      (find-prune key now ws w e h)

-- One more request, of which `rest` are allowed after it.
one_more :
    (limit count n rest : ℕ)
    → rest ≡ lesser (limit - (count + 1)) n
    → (if not (ltb limit (count + 1)) then rest + 1 else rest) ≡ lesser (limit - count) (n + 1)
one_more limit count n rest e = ground arith

-- The first request of the list, with the client's next window known.
granted_next :
    (limit window : ℕ) (key : Bytes) (a : Arrival) (arrivals : List Arrival)
    (ws : List MemoryWindow) (w : MemoryWindow)
    → (a.client =s key) ≡ true
    → (memory_allow a.client limit window a.at ws).0.allowed ≡ not (ltb limit (w.count + 1))
    → granted limit window key arrivals (memory_allow a.client limit window a.at ws).1
      ≡ lesser (limit - (w.count + 1)) (counted key arrivals)
    → granted limit window key (a ∷ arrivals) ws
      ≡ lesser (limit - w.count) (counted key (a ∷ arrivals))
unfolding granted
granted_next limit window key a arrivals ws w same allowed rest =
    rw (same, allowed) (one_more limit w.count (counted key arrivals) _ rest)

granted_in_window :
    (limit window : ℕ) (key : Bytes) (arrivals : List Arrival) (ws : List MemoryWindow)
    (w : MemoryWindow)
    → window_at key ws ≡ some w
    → IsBefore w.reset arrivals
    → granted limit window key arrivals ws ≡ lesser (limit - w.count) (counted key arrivals)
unfolding granted
granted_in_window limit window key [] ws w e h = ground arith
granted_in_window limit window key (a ∷ arrivals) ws w e (before, h) =
    let open_at : is_over a.at w ≡ false = ground arith in
    let ws' = (memory_allow a.client limit window a.at ws).1 in
    elim (Bool-cases (a.client =s key)) [
      | inl same ↦
          let at_client : window_at a.client ws ≡ some w = rw (=s_sound a.client key same) e in
          let (allowed, stored) =
            allow_in_window a.client limit window a.at ws w at_client open_at in
          granted_next limit window key a arrivals ws w same allowed (
            granted_in_window limit window key arrivals ws' (record w { count = w.count + 1 })
              (subst (λ k. window_at k ws' ≡ some (record w { count = w.count + 1 }))
                (=s_sound a.client key same) stored)
              h)
      | inr other ↦ rw other (
          granted_in_window limit window key arrivals ws' w
            (allow_other key a.client limit window a.at ws w other e open_at) h)
    ]

-- A client that has no open window opens one with its first request. Of its requests that arrive
-- before the end of that window, with those of other clients between them in any order, the memory
-- store allows as many as there are, up to the limit.
pub granted_exactly :
    (limit window : ℕ) (a : Arrival) (arrivals : List Arrival) (ws : List MemoryWindow)
    → window_at a.client (prune_expired a.at ws) ≡ none
    → IsBefore (a.at + window) arrivals
    → granted limit window a.client (a ∷ arrivals) ws
      ≡ lesser limit (counted a.client (a ∷ arrivals))
granted_exactly limit window a arrivals ws closed before =
    let w = fresh_window a.client (a.at + window) in
    let (allowed, stored) = allow_current a.client limit window a.at ws w (rw closed refl) refl in
    subst
      (λ n.
        granted limit window a.client (a ∷ arrivals) ws
        ≡ lesser n (counted a.client (a ∷ arrivals)))
      (omega arith)
      (granted_next limit window a.client a arrivals ws w (=s_refl a.client) allowed
        (granted_in_window limit window a.client arrivals _ (record w { count = 1 }) stored before))
