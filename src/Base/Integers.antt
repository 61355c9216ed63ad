-- ===== src/Base/Integers.antt =====
-- Signed integers as far as the code reads them from text: `strconv.Atoi` on a 64-bit platform.
use Prim.Native.Nat.{ℕ, zero, suc}
use mathlib.Core.Option.{Option, none, some}
use mathlib.Core.List.{[], ◌∷◌}
use golang_rest_api_template.Base.Tests.{ltb, leb, ◌==◌, if◌then◌else◌}
use golang_rest_api_template.Base.Text.{Bytes, is_empty, read_digits}

-- `negsuc n` is -(n + 1).
pub data ℤ : Type 0 where
  pos : ℕ → ℤ
  negsuc : ℕ → ℤ

abbrev pub negate : ℕ → ℤ
negate zero = pos 0
negate (suc n) = negsuc n

abbrev magnitude : Bytes → Option ℕ
magnitude s = if is_empty s then none else read_digits 0 s

abbrev positive_int : Option ℕ → Option ℤ
positive_int none = none
positive_int (some n) = if ltb n 9223372036854775808 then some (pos n) else none

abbrev negative_int : Option ℕ → Option ℤ
negative_int none = none
negative_int (some n) = if leb n 9223372036854775808 then some (negate n) else none

-- An optional sign, then decimal digits; `none` stands for any error.
unfoldable pub atoi : Bytes → Option ℤ
unfolding read_digits
atoi [] = none
atoi (b ∷ s) =
    if b == 45
    then negative_int (magnitude s)
    else if b == 43
    then positive_int (magnitude s)
    else positive_int (magnitude (b ∷ s))

-- The number of a positive setting, and the default for one that is not.
abbrev pub positive_or : ℕ → Option ℤ → ℕ
positive_or default none = default
positive_or default (some (negsuc n)) = default
positive_or default (some (pos n)) = if n == 0 then default else n
