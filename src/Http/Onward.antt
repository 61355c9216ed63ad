-- ===== src/Http/Onward.antt =====
-- Middleware of the engine: where a chain of them ends a request, and how it goes on.
use golang_rest_api_template.Base.{
  ◌≡◌, refl, ◌⊎◌, inl, inr, Bool, true, false, List, [], ◌∷◌, All, Bytes, if◌then◌else◌,
}
use golang_rest_api_template.Http.{Context, Response, Step, abort, next, Middleware, Handler, chain}
use golang_rest_api_template.Http.Guard.{Step-cases}

-- A step that ends the request with an answer of `Ending`, or goes on with the headers `h`.
abbrev pub Onward : (Ending : Response → Type 0) → (h : Bytes → Bytes) → Step → Type 0
Onward Ending h (abort r) = Ending r
Onward Ending h (next c) = c.request.header ≡ h

abbrev pub IsOnward : {W : Type 0} → (Response → Type 0) → (Bytes → Bytes) → Middleware W → Type 0
IsOnward {W} Ending h m = (c : Context) (w : W) → c.request.header ≡ h → Onward Ending h (m c w).0

module _ {W : Type 0} (Ending : Response → Type 0) (h : Bytes → Bytes) where
  -- A test between two steps.
  pub either-Onward :
      (b : Bool) (x y : Step × W)
      → Onward Ending h x.0
      → Onward Ending h y.0
      → Onward Ending h (if b then x else y).0
  either-Onward true x y k l = k
  either-Onward false x y k l = l

  -- The answer of a chain is such an ending, or that of its handler, for the same headers.
  pub chain-onward :
      (ms : List (Middleware W)) (handler : Handler W) (c : Context) (w : W)
      → All (IsOnward Ending h) ms
      → c.request.header ≡ h
      → Ending (chain ms handler c w).0
        ⊎ ((c' : Context) × ((w' : W) × ((c'.request.header ≡ h)
                × ((chain ms handler c w).0 ≡ (handler c' w').0))))
  unfolding chain
  chain-onward [] handler c w all same = inr (c, (w, (same, refl)))
  chain-onward (m ∷ ms) handler c w (first, all) same = elim (Step-cases (m c w).0) [
    | inl (r, e) ↦ rw e (inl (rw e at (first c w same)))
    | inr (c1, e) ↦ rw e (chain-onward ms handler c1 (m c w).1 all (rw e at (first c w same)))
  ]
