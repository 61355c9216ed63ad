-- ===== src/Repository/ListQuery/Like.antt =====
-- pkg/repository/book_sqlc.go: the pattern of a text filter against the texts that match it.
use golang_rest_api_template.Base.{
  ℕ, ◌≡◌, refl, sym, ap, ◌∙◌, ◌↔◌, inl, inr, Bool, true, false, ◌||◌, [], ◌∷◌, ◌++◌, arith, ◌==◌,
  if◌then◌else◌, Bool-cases, Bytes, to_lower, lower_byte,
}
use mathlib.Core.List.{append-nil}
use golang_rest_api_template.Repository.ListQuery.{escape_like_pattern, like_argument}

-- What the SQL operator `LIKE … ESCAPE '\'` accepts: `%` stands for any text, `_` for any one
-- character, and a character behind a backslash for itself. The flag says that one was read.
abbrev pub IsLike : Bool → Bytes → Bytes → Type 0
IsLike false [] t = t ≡ []
IsLike true [] t = ⊥
IsLike true (c ∷ p) t = (rest : Bytes) × (t ≡ c ∷ rest) × IsLike false p rest
IsLike false (c ∷ p) t =
    if c == 37
    then ((before : Bytes) × (rest : Bytes) × (t ≡ before ++ rest) × IsLike false p rest)
    else if c == 95
    then ((b : ℕ) × (rest : Bytes) × (t ≡ b ∷ rest) × IsLike false p rest)
    else if c == 92
    then IsLike true p t
    else ((rest : Bytes) × (t ≡ c ∷ rest) × IsLike false p rest)

abbrev special : ℕ → Bool
special b = b == 92 || (b == 37 || b == 95)

IsLike-escape :
    (b : ℕ) (s q t : Bytes)
    → IsLike false (escape_like_pattern (b ∷ s) ++ q) t
      ≡ ((rest : Bytes) × (t ≡ b ∷ rest) × IsLike false (escape_like_pattern s ++ q) rest)
unfolding escape_like_pattern
IsLike-escape b s q t = elim (Bool-cases (special b)) [
  | inl e ↦ rw e refl
  | inr e ↦
      let p : (b == 37) ≡ false = ground arith in
      let u : (b == 95) ≡ false = ground arith in
      let l : (b == 92) ≡ false = ground arith in rw e (rw (p, u, l) refl)
]

IsLike-literal :
    (s q t : Bytes)
    → IsLike false (escape_like_pattern s ++ q) t
      ↔ ((rest : Bytes) × (t ≡ s ++ rest) × IsLike false q rest)
unfolding escape_like_pattern
IsLike-literal [] q t = (λ h. (t, refl, h), λ (rest, e, h). rw e h)
IsLike-literal (b ∷ s) q t = rw (IsLike-escape b s q t) (
  (λ (more, e, h).
      let (rest, f, g) = (IsLike-literal s q more).0 h in (rest, e ∙ ap (λ l. b ∷ l) f, g)),
  (λ (rest, e, g). (s ++ rest, e, (IsLike-literal s q (s ++ rest)).1 (rest, refl, g))),
)

special-lower_byte : (b : ℕ) → special (lower_byte b) ≡ special b
special-lower_byte b = ground arith

escape-to_lower : (s : Bytes) → to_lower (escape_like_pattern s) ≡ escape_like_pattern (to_lower s)
unfolding to_lower escape_like_pattern
escape-to_lower [] = refl
escape-to_lower (b ∷ s) = rw (special-lower_byte b) (elim (Bool-cases (special b)) [
  | inl e ↦ rw e (ap (λ l. 92 ∷ lower_byte b ∷ l) (escape-to_lower s))
  | inr e ↦ rw e (ap (λ l. lower_byte b ∷ l) (escape-to_lower s))
])

-- A text matches the LIKE pattern that the list query sends for a filter exactly if the lower-case
-- filter stands in it literally, so that `%`, `_` and the backslash in a filter stand for
-- themselves.
pub like_argument_iff :
    (s t : Bytes)
    → IsLike false (like_argument s) t
      ↔ ((before : Bytes) × (after : Bytes) × (t ≡ before ++ (to_lower s ++ after)))
unfolding like_argument
like_argument_iff s t = rw (escape-to_lower s) (
  (λ (before, rest, e, h).
      let (after, f, g) = (IsLike-literal (to_lower s) (37 ∷ []) rest).0 h in
      (before, after, e ∙ ap (λ l. before ++ l) f)),
  (λ (before, after, e). (
    before,
    to_lower s ++ after,
    e,
    (IsLike-literal (to_lower s) (37 ∷ []) _).1
        (after, refl, (after, [], sym (append-nil after), refl)),
  )),
)
