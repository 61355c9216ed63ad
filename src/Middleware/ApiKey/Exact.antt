-- ===== src/Middleware/ApiKey/Exact.antt =====
-- pkg/middleware/api_key.go: `constantTimeAPIKeyEqual` against the equality of the two texts.
use golang_rest_api_template.Base.{
  ℕ, zero, suc, ◌<◌, ◌≡◌, refl, sym, ap, ◌∙◌, ◌↔◌, inl, inr, true, [], ◌∷◌, ◌++◌, arith, ◌==◌,
  ==-false_of_ne, Bool-cases, length, Bytes, =s_sound, =s_refl,
}
use mathlib.Core.List.{cons-eq-cons}
use golang_rest_api_template.Middleware.ApiKey.{padded, big_endian_64, constant_time_api_key_equal}

pub append-inj_of_length :
    (a b c d : Bytes) → length a ≡ length b → a ++ c ≡ b ++ d → (a ≡ b) × (c ≡ d)
append-inj_of_length [] [] c d n e = (refl, e)
append-inj_of_length [] (y ∷ b) c d n e = absurd (omega arith)
append-inj_of_length (x ∷ a) [] c d n e = absurd (omega arith)
append-inj_of_length (x ∷ a) (y ∷ b) c d n e =
    let (head, tail) = cons-eq-cons.0 e in
    let (same, rest) = append-inj_of_length a b c d (omega arith) tail in (cc (head, same), rest)

length-padded : (n : ℕ) (p : Bytes) → length (padded n p) ≡ n
unfolding padded
length-padded zero p = refl
length-padded (suc n) [] = omega (arith, length-padded n [])
length-padded (suc n) (b ∷ p) = omega (arith, length-padded n p)

padded_self : (p : Bytes) → padded (length p) p ≡ p
unfolding padded
padded_self [] = refl
padded_self (b ∷ p) = rw (padded_self p)

-- The eight bytes tell any two lengths apart that a machine word holds.
big_endian_64-injective :
    (m n : ℕ)
    → m < 18446744073709551616
    → n < 18446744073709551616
    → big_endian_64 m ≡ big_endian_64 n
    → m ≡ n
unfolding big_endian_64
big_endian_64-injective m n hm hn e =
    let (e0, r0) = cons-eq-cons.0 e in
    let (e1, r1) = cons-eq-cons.0 r0 in
    let (e2, r2) = cons-eq-cons.0 r1 in
    let (e3, r3) = cons-eq-cons.0 r2 in
    let (e4, r4) = cons-eq-cons.0 r3 in
    let (e5, r5) = cons-eq-cons.0 r4 in
    let (e6, r6) = cons-eq-cons.0 r5 in let (e7, r7) = cons-eq-cons.0 r6 in omega arith

equal_sound :
    (provided secret : Bytes)
    → length provided < 18446744073709551616
    → length secret < 18446744073709551616
    → constant_time_api_key_equal provided secret ≡ true
    → provided ≡ secret
unfolding constant_time_api_key_equal
equal_sound provided secret hp hs e = elim (Bool-cases (length secret == 0)) [
  | inl z ↦ absurd (ground arith)
  | inr nz ↦
      let same = =s_sound _ _ (rw nz at e) in
      let (front, back) =
        append-inj_of_length (padded (length secret) provided) secret _ _
          (length-padded (length secret) provided) same in
      let lengths = big_endian_64-injective _ _ hp hs back in
      sym (padded_self provided) ∙ ap (λ n. padded n provided) lengths ∙ front
]

-- For a secret that is not empty, the comparison holds for the secret itself and for no other
-- text. Condition: both are shorter than 2^64 bytes.
pub constant_time_api_key_equal_iff :
    (provided secret : Bytes)
    → 0 < length secret
    → length provided < 18446744073709551616
    → length secret < 18446744073709551616
    → (constant_time_api_key_equal provided secret ≡ true) ↔ (provided ≡ secret)
unfolding constant_time_api_key_equal
constant_time_api_key_equal_iff provided secret h hp hs = (
  equal_sound provided secret hp hs,
  λ e.
      rw (e, padded_self secret, ==-false_of_ne (length secret) 0 (λ z. omega arith))
        (=s_refl (secret ++ big_endian_64 (length secret))),
)
