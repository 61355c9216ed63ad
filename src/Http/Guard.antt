-- ===== src/Http/Guard.antt =====
-- Middleware that ends a request only with an error, and chains behind it.
use golang_rest_api_template.Base.{
  ◌≤◌, ◌<◌, ◌≡◌, refl, ap, ◌⊎◌, inl, inr, Bool, true, false, List, ◌∷◌, arith, if◌then◌else◌,
}
use golang_rest_api_template.Http.{Context, Step, abort, next, Middleware, Handler, Response, chain}

-- A step that ends the request ends it with an error.
abbrev pub Refuses : Step → Type 0
Refuses (abort r) = 400 ≤ r.status
Refuses (next c) = Unit

abbrev pub IsGuard : {W : Type 0} → Middleware W → Type 0
IsGuard {W} m = (c : Context) (w : W) → Refuses (m c w).0

pub Step-cases : (s : Step) → ((r : Response) × (s ≡ abort r)) ⊎ ((c : Context) × (s ≡ next c))
Step-cases (abort r) = inl (r, refl)
Step-cases (next c) = inr (c, refl)

pub next-injective : {c c' : Context} → ◌≡◌ {A = Step} (next c) (next c') → c ≡ c'
next-injective {c = c} e = ap context e
  where
    context : Step → Context
    context (next x) = x
    context (abort r) = c

module _ {W : Type 0} where
  -- A success behind a guard is a success of the rest, on what the guard lets through.
  pub chain-guard :
      (m : Middleware W) (ms : List (Middleware W)) (handler : Handler W) (c : Context) (w : W)
      → IsGuard m
      → (chain (m ∷ ms) handler c w).0.status < 400
      → (c' : Context) × (((m c w).0 ≡ next c') × ((chain ms handler c' (m c w).1).0.status < 400))
  unfolding chain
  chain-guard m ms handler c w guard h = elim (Step-cases (m c w).0) [
    | inl (r, e) ↦ let low = rw e at h in let high = rw e at (guard c w) in absurd (omega arith)
    | inr (c', e) ↦ (c', (e, rw e at h))
  ]

  -- A test between two steps.
  pub either :
      (b : Bool) (x y : Step × W) → Refuses x.0 → Refuses y.0 → Refuses (if b then x else y).0
  either true x y h k = h
  either false x y h k = k
