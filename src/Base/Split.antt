-- ===== src/Base/Split.antt =====
-- `strings.Split` on one byte, and the trimmed parts that are not empty.
use mathlib.Core.List.{reverse-append, reverse-reverse, reverse-cons}
use Prim.Native.Nat.{ℕ}
use mathlib.Core.Path.{◌≡◌, refl, sym, ap, ◌∙◌, subst}
use mathlib.Core.Logic.{◌≢◌, inl, inr}
use mathlib.Core.Bool.{false}
use mathlib.Core.List.{List, [], ◌∷◌, ◌++◌, reverse}
use native.Mathlib.Omega.{arith}
use golang_rest_api_template.Base.Tests.{◌==◌, if◌then◌else◌, Bool-cases}
use golang_rest_api_template.Base.Lists.{All, All-append}
use golang_rest_api_template.Base.Text.{Bytes, is_empty, is_space, trim_left, trim_space}

-- The parts behind those read so far: `part` is the one that is being read, backwards.
unfoldable pub split_from : ℕ → Bytes → Bytes → List Bytes
split_from sep part [] = reverse part ∷ []
split_from sep part (b ∷ s) =
    let here = reverse part ∷ split_from sep [] s in
    let on = split_from sep (b ∷ part) s in if b == sep then here else on

-- `strings.Split(s, sep)` for a separator of one byte.
unfoldable pub split : ℕ → Bytes → List Bytes
unfolding split_from
split sep s = split_from sep [] s

-- The loop that trims each part and appends those that are not empty.
unfoldable pub trimmed_parts : List Bytes → List Bytes
unfolding trim_space
trimmed_parts [] = []
trimmed_parts (part ∷ parts) =
    let b = trim_space part in
    let rest = trimmed_parts parts in if is_empty b then rest else b ∷ rest

-- A text that `strings.TrimSpace` leaves alone.
abbrev pub IsTrimmed : Bytes → Type 0
IsTrimmed s = trim_space s ≡ s

abbrev HeadOk : Bytes → Type 0
HeadOk [] = Unit
HeadOk (b ∷ s) = is_space b ≡ false

HeadOk-trim_left : (s : Bytes) → HeadOk (trim_left s)
HeadOk-trim_left [] = tt
HeadOk-trim_left (b ∷ s) = elim (Bool-cases (is_space b)) [
  | inl e ↦ rw e (HeadOk-trim_left s)
  | inr e ↦ rw e e
]

trim_left_of_ok : (s : Bytes) → HeadOk s → trim_left s ≡ s
trim_left_of_ok [] h = refl
trim_left_of_ok (b ∷ s) h = rw h refl

HeadOk-append : (a b : Bytes) → HeadOk (a ++ b) → HeadOk a
HeadOk-append [] b h = tt
HeadOk-append (x ∷ a) b h = h

trim_left-suffix : (s : Bytes) → (p : Bytes) × (p ++ trim_left s ≡ s)
trim_left-suffix [] = ([], refl)
trim_left-suffix (b ∷ s) = elim (Bool-cases (is_space b)) [
  | inl e ↦ let (p, q) = trim_left-suffix s in (b ∷ p, rw e (ap (λ l. b ∷ l) q))
  | inr e ↦ ([], rw e refl)
]

-- Trimming on the right leaves a start of the text.
HeadOk-trimmed : (t : Bytes) → HeadOk t → HeadOk (reverse (trim_left (reverse t)))
HeadOk-trimmed t h =
    let (p, e) = trim_left-suffix (reverse t) in
    let split_up : reverse (trim_left (reverse t)) ++ reverse p ≡ t =
      sym (reverse-append p (trim_left (reverse t))) ∙ ap reverse e ∙ reverse-reverse t in
    HeadOk-append (reverse (trim_left (reverse t))) (reverse p) (subst HeadOk (sym split_up) h)

pub trim_space-IsTrimmed : (s : Bytes) → IsTrimmed (trim_space s)
unfolding trim_space
trim_space-IsTrimmed s =
    let t = trim_left s in
    let u = trim_left (reverse t) in
    ap (λ l. reverse (trim_left (reverse l)))
      (trim_left_of_ok (reverse u) (HeadOk-trimmed t (HeadOk-trim_left s)))
    ∙ ap (λ l. reverse (trim_left l)) (reverse-reverse u)
    ∙ ap reverse (trim_left_of_ok u (HeadOk-trim_left (reverse t)))

module _ {κ} (P : ℕ → Type κ) where
  All-trim_left : (s : Bytes) → All P s → All P (trim_left s)
  All-trim_left [] h = tt
  All-trim_left (b ∷ s) (p, h) = elim (Bool-cases (is_space b)) [
    | inl e ↦ rw e (All-trim_left s h)
    | inr e ↦ rw e (p, h)
  ]

  All-reverse : (s : Bytes) → All P s → All P (reverse s)
  All-reverse [] h = tt
  All-reverse (b ∷ s) (p, h) =
      rw (reverse-cons b s) (All-append P (reverse s) (b ∷ []) (All-reverse s h) (p, tt))

  All-trim_space : (s : Bytes) → All P s → All P (trim_space s)
  unfolding trim_space
  All-trim_space s h =
      All-reverse _ (All-trim_left _ (All-reverse (trim_left s) (All-trim_left s h)))

abbrev pub IsFree : ℕ → Bytes → Type 0
IsFree sep = All (λ b. b ≢ sep)

split_from-IsFree :
    (sep : ℕ) (part s : Bytes) → IsFree sep part → All (IsFree sep) (split_from sep part s)
unfolding split_from
split_from-IsFree sep part [] h = (All-reverse (λ b. b ≢ sep) part h, tt)
split_from-IsFree sep part (b ∷ s) h = elim (Bool-cases (b == sep)) [
  | inl e ↦ rw e (All-reverse (λ c. c ≢ sep) part h, split_from-IsFree sep [] s tt)
  | inr e ↦ rw e (split_from-IsFree sep (b ∷ part) s (ground arith, h))
]

-- A part that a list of a setting keeps: trimmed, not empty, and without the separator.
pub record IsPart (sep : ℕ) (s : Bytes) : Type 0 where
  pub trimmed : IsTrimmed s
  pub filled : is_empty s ≡ false
  pub free : IsFree sep s

trimmed_parts-IsPart :
    (sep : ℕ) (parts : List Bytes) → All (IsFree sep) parts → All (IsPart sep) (trimmed_parts parts)
unfolding trimmed_parts
trimmed_parts-IsPart sep [] h = tt
trimmed_parts-IsPart sep (s ∷ parts) (p, h) = elim (Bool-cases (is_empty (trim_space s))) [
  | inl e ↦ rw e (trimmed_parts-IsPart sep parts h)
  | inr e ↦ rw e (
    record {
      trimmed = trim_space-IsTrimmed s;
      filled = e;
      free = All-trim_space (λ b. b ≢ sep) s p;
    },
    trimmed_parts-IsPart sep parts h,
  )
]

pub trimmed_parts-split : (sep : ℕ) (s : Bytes) → All (IsPart sep) (trimmed_parts (split sep s))
unfolding split
trimmed_parts-split sep s =
    trimmed_parts-IsPart sep (split_from sep [] s) (split_from-IsFree sep [] s tt)
