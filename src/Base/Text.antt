-- ===== src/Base/Text.antt =====
-- Go strings as their bytes, and what the code uses of the packages `strings`, `strconv` and
-- `encoding/hex`. Case folding and trimming treat ASCII; a byte above 127 is left alone.
use Prim.Native.Nat.{ℕ, zero, suc, ◌+◌, ◌-◌, ◌*◌, ◌/◌, ◌%◌}
use Prim.Native.Char.{code}
use Prim.Native.String.{String}
use mathlib.Core.Path.{◌≡◌, refl}
use mathlib.Core.Logic.{◌↔◌}
use mathlib.Core.Bool.{Bool, true, false, ◌&&◌, ◌||◌}
use mathlib.Core.Option.{Option, none, some}
use mathlib.Core.List.{List, [], ◌∷◌, ◌++◌, map, reverse}
use native.Mathlib.Omega.{arith}
use golang_rest_api_template.Base.Tests.{ltb, leb, ◌==◌, if◌then◌else◌}

abbrev pub Bytes : Type 0
Bytes = List ℕ

-- A literal of the source; these are all ASCII.
abbrev pub lit : String → Bytes
lit String.[] = []
lit (String.◌∷◌ c s) = code c ∷ lit s

infix 50 ◌=s◌
abbrev pub ◌=s◌ : Bytes → Bytes → Bool
[] =s [] = true
[] =s (b ∷ t) = false
(a ∷ r) =s [] = false
(a ∷ r) =s (b ∷ t) = (a == b) && (r =s t)

pub =s_sound : (a b : Bytes) → (a =s b) ≡ true → a ≡ b
=s_sound [] [] h = refl
=s_sound [] (b ∷ t) h = cc
=s_sound (a ∷ r) [] h = cc
=s_sound (a ∷ r) (b ∷ t) h = ground (arith, =s_sound r t)

pub =s_refl : (a : Bytes) → (a =s a) ≡ true
=s_refl [] = refl
=s_refl (a ∷ r) = ground (arith, =s_refl r)

pub =s_iff : (a b : Bytes) → ((a =s b) ≡ true) ↔ (a ≡ b)
=s_iff a b = (=s_sound a b, λ e. rw e (=s_refl b))

-- `s == ""`.
abbrev pub is_empty : Bytes → Bool
is_empty [] = true
is_empty (b ∷ t) = false

abbrev pub is_space : ℕ → Bool
is_space b = (leb 9 b && leb b 13) || b == 32

abbrev pub trim_left : Bytes → Bytes
trim_left [] = []
trim_left (b ∷ t) = if is_space b then trim_left t else b ∷ t

-- `strings.TrimSpace`.
unfoldable pub trim_space : Bytes → Bytes
trim_space s = reverse (trim_left (reverse (trim_left s)))

abbrev pub lower_byte : ℕ → ℕ
lower_byte b = if leb 65 b && leb b 90 then b + 32 else b

-- `strings.ToLower`.
unfoldable pub to_lower : Bytes → Bytes
to_lower = map lower_byte

-- `strings.HasPrefix`, with what follows the prefix.
unfoldable pub cut_prefix : Bytes → Bytes → Option Bytes
cut_prefix [] s = some s
cut_prefix (p ∷ ps) [] = none
cut_prefix (p ∷ ps) (b ∷ t) = if p == b then cut_prefix ps t else none

abbrev pub is_digit : ℕ → Bool
is_digit b = leb 48 b && leb b 57

-- The digits of `%d` and `strconv.FormatUint(n, 10)`.
unfoldable pub digits_fuel : ℕ → ℕ → Bytes
digits_fuel zero n = []
digits_fuel (suc f) n =
    let more = digits_fuel f (n / 10) ++ (48 + n % 10) ∷ [] in
    if ltb n 10 then (48 + n) ∷ [] else more

unfoldable pub format_uint : ℕ → Bytes
unfolding digits_fuel
format_uint n = digits_fuel (suc n) n

-- The value of a row of digits behind those read before; `none` at any other byte.
unfoldable pub read_digits : ℕ → Bytes → Option ℕ
read_digits acc [] = some acc
read_digits acc (b ∷ t) =
    let rest = read_digits (acc * 10 + (b - 48)) t in if is_digit b then rest else none

-- `strconv.ParseUint(s, 10, 64)`: no sign, at least one digit, and no value above the range.
unfoldable pub parse_uint : Bytes → Option ℕ
unfolding read_digits
parse_uint s = if is_empty s then none else elim (read_digits 0 s) [
  | none ↦ none
  | some n ↦ if ltb n 18446744073709551616 then some n else none
]

abbrev pub hex_digit : ℕ → ℕ
hex_digit n = if ltb n 10 then 48 + n else 87 + n

-- `hex.EncodeToString`.
unfoldable pub hex_encode : Bytes → Bytes
hex_encode [] = []
hex_encode (b ∷ t) = hex_digit (b / 16) ∷ hex_digit (b % 16) ∷ hex_encode t

abbrev pub is_some {ℓ} : {A : Type ℓ} → Option A → Bool
is_some none = false
is_some (some a) = true

-- `strings.Contains(s, part)`.
unfoldable pub contains : Bytes → Bytes → Bool
unfolding cut_prefix
contains [] part = is_empty part
contains (b ∷ s) part = is_some (cut_prefix part (b ∷ s)) || contains s part
