-- ===== src/Base/Digits.antt =====
-- Lemmas on the printed numbers and on the hex encoding.
use mathlib.Core.List.{cons-eq-cons}
use Prim.Native.Nat.{ℕ, zero, suc, ◌+◌, ◌-◌, ◌*◌, ◌/◌, ◌%◌, ◌≤◌, ◌<◌}
use mathlib.Core.Path.{◌≡◌, refl, sym, ap, ◌∙◌}
use mathlib.Core.Logic.{◌≢◌, inl, inr}
use mathlib.Core.Bool.{false}
use mathlib.Core.Option.{some, some-injective}
use mathlib.Core.List.{[], ◌∷◌, ◌++◌}
use native.Mathlib.Omega.{arith}
use golang_rest_api_template.Base.Tests.{ltb, ltb→lt, Bool-cases}
use golang_rest_api_template.Base.Lists.{All, All-append}
use golang_rest_api_template.Base.Text.{
  Bytes, is_empty, digits_fuel, format_uint, read_digits, parse_uint, hex_digit, hex_encode,
}

is_empty-concat : (s : Bytes) (b : ℕ) → is_empty (s ++ b ∷ []) ≡ false
is_empty-concat [] b = refl
is_empty-concat (c ∷ s) b = refl

read_digits-concat :
    (s : Bytes) (acc v d : ℕ)
    → d < 10
    → read_digits acc s ≡ some v
    → read_digits acc (s ++ (48 + d) ∷ []) ≡ some (v * 10 + d)
unfolding read_digits
read_digits-concat [] acc v d h e = ground arith
read_digits-concat (b ∷ s) acc v d h e =
    ground (arith, read_digits-concat s (acc * 10 + (b - 48)) v d)

read_digits-digits_fuel : (f n : ℕ) → n < f → read_digits 0 (digits_fuel f n) ≡ some n
unfolding digits_fuel
read_digits-digits_fuel zero n h = elim h [ ]
read_digits-digits_fuel (suc f) n h = elim (Bool-cases (ltb n 10)) [
  | inl small ↦ rw small (unfold read_digits in ground arith)
  | inr large ↦ rw large (
      read_digits-concat (digits_fuel f (n / 10)) 0 (n / 10) (n % 10) (omega arith)
        (read_digits-digits_fuel f (n / 10) (ground arith))
      ∙ ap some (omega arith))
]

pub read_digits-format_uint : (n : ℕ) → read_digits 0 (format_uint n) ≡ some n
unfolding format_uint
read_digits-format_uint n = read_digits-digits_fuel (suc n) n (omega arith)

pub is_empty-format_uint : (n : ℕ) → is_empty (format_uint n) ≡ false
unfolding format_uint digits_fuel
is_empty-format_uint n = elim (Bool-cases (ltb n 10)) [
  | inl small ↦ rw small
  | inr large ↦ rw large (is_empty-concat (digits_fuel n (n / 10)) (48 + n % 10))
]

-- A printed number reads back.
pub parse_uint-format_uint :
    (n : ℕ) → n < 18446744073709551616 → parse_uint (format_uint n) ≡ some n
unfolding parse_uint
parse_uint-format_uint n h =
    rw (is_empty-format_uint n) (rw (read_digits-format_uint n, parse_uint) (ground arith))

pub format_uint-injective : (m n : ℕ) → format_uint m ≡ format_uint n → m ≡ n
format_uint-injective m n e =
    some-injective m n
      (sym (read_digits-format_uint m) ∙ ap (read_digits 0) e ∙ read_digits-format_uint n)

abbrev pub IsDigit : ℕ → Type 0
IsDigit b = (48 ≤ b) × (b ≤ 57)

digits_fuel-IsDigit : (f n : ℕ) → All IsDigit (digits_fuel f n)
unfolding digits_fuel
digits_fuel-IsDigit zero n = tt
digits_fuel-IsDigit (suc f) n = elim (Bool-cases (ltb n 10)) [
  | inl small ↦ rw small ((omega arith, let h = ltb→lt n 10 small in omega arith), tt)
  | inr large ↦
      rw large
        (All-append IsDigit _ _ (digits_fuel-IsDigit f (n / 10)) ((omega arith, omega arith), tt))
]

pub format_uint-IsDigit : (n : ℕ) → All IsDigit (format_uint n)
unfolding format_uint
format_uint-IsDigit n = digits_fuel-IsDigit (suc n) n

-- A byte of a text; Go's `byte` is below 256.
abbrev pub IsByte : ℕ → Type 0
IsByte b = b < 256

hex_digit-injective : (m n : ℕ) → hex_digit m ≡ hex_digit n → m ≡ n
hex_digit-injective m n e = ground arith

pub hex_encode-injective : (s t : Bytes) → hex_encode s ≡ hex_encode t → s ≡ t
unfolding hex_encode
hex_encode-injective [] [] e = refl
hex_encode-injective [] (c ∷ t) e = cc
hex_encode-injective (b ∷ s) [] e = cc
hex_encode-injective (b ∷ s) (c ∷ t) e =
    let (high, e') = cons-eq-cons.0 e in
    let (low, more) = cons-eq-cons.0 e' in
    let h = hex_digit-injective (b / 16) (c / 16) high in
    let l = hex_digit-injective (b % 16) (c % 16) low in
    let same : b ≡ c = omega arith in cc (same, hex_encode-injective s t more)

pub hex_encode-NoUnderscore : (s : Bytes) → All IsByte s → All (λ b. b ≢ 95) (hex_encode s)
unfolding hex_encode
hex_encode-NoUnderscore [] h = tt
hex_encode-NoUnderscore (b ∷ s) (p, h) = (ground arith, (ground arith, hex_encode-NoUnderscore s h))
