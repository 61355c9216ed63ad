-- ===== src/Result.antt =====
-- Go's `(value, error)` pairs and the state that a call changes: a computation over a world `W`
-- returns a value or an error, and the world as it left it, also on an error.
use golang_rest_api_template.Base.{ap, Bool, true, false, ◌≡◌, refl, ◌∙◌, ◌⊎◌, inl, inr, arith, ap}

pub data Result {ℓ} (E A : Type ℓ) : Type ℓ where
  ok : A → Result E A
  err : E → Result E A

-- What computes on `W` and may fail with an `E`.
abbrev pub Io : Type 0 → Type 0 → Type 0 → Type 0
Io W E A = W → Result E A × W

module _ {W E A B : Type 0} where
  abbrev continue : Result E A → (A → Io W E B) → Io W E B
  continue (ok a) f w = f a w
  continue (err e) f w = (err e, w)

  infixl 5 ◌>>=◌ ◌>>◌
  abbrev pub ◌>>=◌ : Io W E A → (A → Io W E B) → Io W E B
  ◌>>=◌ m f w = continue (m w).0 f (m w).1

  abbrev pub ◌>>◌ : Io W E A → Io W E B → Io W E B
  m >> n = m >>= λ _. n

module _ {W E A : Type 0} where
  abbrev pub pure : A → Io W E A
  pure a w = (ok a, w)

  abbrev pub raise : E → Io W E A
  raise e w = (err e, w)

abbrev convert : {E F A : Type 0} → (E → F) → Result E A → Result F A
convert f (ok a) = ok a
convert f (err e) = err (f e)

module _ {W E F A : Type 0} where
  -- `if err != nil { return f(err) }`.
  abbrev pub map_err : (E → F) → Io W E A → Io W F A
  map_err f m w = (convert f (m w).0, (m w).1)

  -- Hands the outcome on as a value: `v, err := m()`, with the branches on `err` to follow.
  abbrev pub attempt : Io W E A → Io W F (Result E A)
  attempt m w = (ok (m w).0, (m w).1)

-- A call that leaves a view of the world as it was.
abbrev pub Keeps : {W V E A : Type 0} → (W → V) → Io W E A → Type 0
Keeps {W = W} view m = (w : W) → view (m w).1 ≡ view w

pub Result-cases :
    {E A : Type 0} (r : Result E A) → ((a : A) × (r ≡ ok a)) ⊎ ((e : E) × (r ≡ err e))
Result-cases (ok a) = inl (a, refl)
Result-cases (err e) = inr (e, refl)

-- What a successful sequence and a successful conversion were made of.
pub bind_ok :
    {W E A B : Type 0} (m : Io W E A) (f : A → Io W E B) (w : W) (b : B)
    → ((m >>= f) w).0 ≡ ok b
    → (a : A) × ((m w).0 ≡ ok a) × ((f a (m w).1).0 ≡ ok b) × ((m >>= f) w ≡ f a (m w).1)
bind_ok m f w b e = elim (Result-cases (m w).0) [
  | inl (a, h) ↦ (a, h, rw (h, continue) at e, rw (h, continue))
  | inr (x, h) ↦ absurd (ground arith)
]

pub map_err_ok :
    {W E F A : Type 0} (f : E → F) (m : Io W E A) (w : W) (a : A)
    → (map_err f m w).0 ≡ ok a
    → (m w).0 ≡ ok a
map_err_ok f m w a e = elim (Result-cases (m w).0) [
  | inl (b, h) ↦ ground arith
  | inr (x, h) ↦ absurd (ground arith)
]

-- A view that every part of a sequence keeps.
pub bind-Keeps :
    {W V E A B : Type 0} (view : W → V) (m : Io W E A) (f : A → Io W E B)
    → Keeps view m
    → ((a : A) → Keeps view (f a))
    → Keeps view (m >>= f)
bind-Keeps view m f k l w = elim (Result-cases (m w).0) [
  | inl (a, h) ↦ rw (h, continue) (l a (m w).1 ∙ k w)
  | inr (x, h) ↦ rw (h, continue) (k w)
]

pub ok-injective : {A E : Type 0} {a b : A} → ◌≡◌ {A = Result E A} (ok a) (ok b) → a ≡ b
ok-injective {A} {E} {a} {b} e = ap value e
  where
    value : Result E A → A
    value (ok x) = x
    value (err x) = a

abbrev pub is_ok : {E A : Type 0} → Result E A → Bool
is_ok (ok a) = true
is_ok (err e) = false

pub never_ok : {E A : Type 0} (r : Result E A) → ((a : A) → r ≡ ok a → ⊥) → is_ok r ≡ false
never_ok (ok a) h = absurd (h a refl)
never_ok (err e) h = refl
