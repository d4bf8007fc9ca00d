-- ===== src/Decimal.antt =====
-- Python's `decimal.Decimal` in its default context (28 significant digits, ROUND_HALF_EVEN), as
-- far as the program uses it. A number is `coeff / 10 ^ scale`; comparison is exact, and addition,
-- multiplication and division round their exact result to 28 digits.
pub mod Order
use atlas_ai_trading.Prelude.{
  ℕ, zero, suc, ◌+◌, ◌-◌, ◌*◌, ◌/◌, ◌%◌, ◌^◌, Bool, Option, none, some, List, [], ◌∷◌, ltb, leb,
  ◌==◌, if◌then◌else◌, ◌||◌, ◌&&◌, not, max,
}
use atlas_ai_trading.Prelude.Int.{
  ℤ, pos, negsuc, magnitude, neg, with_sign, ◌+ℤ◌, ◌*ℤ◌, ltb_ℤ, leb_ℤ,
}

pub record Decimal : Type 0 where
  pub coeff : ℤ
  pub scale : ℕ

abbrev pub decimal : ℤ → ℕ → Decimal
decimal c s = record { coeff = c; scale = s }

-- `Decimal(n)`
abbrev pub of_ℕ : ℕ → Decimal
of_ℕ n = decimal (pos n) 0

abbrev pub nought : Decimal
nought = of_ℕ 0

abbrev pub one : Decimal
one = of_ℕ 1

abbrev prec : ℕ
prec = 28

-- The decimal digits of a number, 0 for 0: each round drops one, so `n` rounds are enough.
digits_from : ℕ → ℕ → ℕ
digits_from zero n = 0
digits_from (suc fuel) n = let rest = digits_from fuel (n / 10) in if n == 0 then 0 else rest + 1

num_digits : ℕ → ℕ
unfolding digits_from
num_digits n = digits_from n n

-- n / d to the nearest integer, a tie to the even one.
half_even : ℕ → ℕ → ℕ
half_even n d =
    let q = n / d in
    let r = n % d in
    if ltb (2 * r) d then q else if ltb d (2 * r) then q + 1 else if q % 2 == 0 then q else q + 1

-- Round to the precision of the context.
fix : ℤ → ℕ → Decimal
unfolding num_digits half_even
fix c s =
    let excess = num_digits (magnitude c) - prec in
    let rounded = half_even (magnitude c) (10 ^ excess) in
    if excess == 0
    then decimal c s
    else if leb excess s
    then decimal (with_sign c rounded) (s - excess)
    else decimal (with_sign c (rounded * 10 ^ (excess - s))) 0

-- The coefficient of a number at a larger scale.
abbrev pub at_scale : ℕ → Decimal → ℤ
at_scale s a = with_sign a.coeff (magnitude a.coeff * 10 ^ (s - a.scale))

infixl 65 ◌⊕◌ ◌⊖◌
infixl 70 ◌⊗◌
unfoldable pub ◌⊕◌ : Decimal → Decimal → Decimal
unfolding fix ◌+ℤ◌
a ⊕ b = let s = max a.scale b.scale in fix (at_scale s a +ℤ at_scale s b) s

abbrev pub negate : Decimal → Decimal
negate a = decimal (neg a.coeff) a.scale

unfoldable pub ◌⊖◌ : Decimal → Decimal → Decimal
unfolding ◌⊕◌
a ⊖ b = a ⊕ negate b

unfoldable pub ◌⊗◌ : Decimal → Decimal → Decimal
unfolding fix ◌*ℤ◌
a ⊗ b = fix (a.coeff *ℤ b.coeff) (a.scale + b.scale)

-- The sign of a quotient.
abbrev quotient_sign : ℤ → ℤ → ℤ
quotient_sign (pos n) (pos m) = pos 0
quotient_sign (pos n) (negsuc m) = negsuc 0
quotient_sign (negsuc n) (pos m) = negsuc 0
quotient_sign (negsuc n) (negsuc m) = pos 0

-- Enough digits of the quotient to round it; the last one is moved off 0 and 5 by a remainder.
divide_digits : ℕ → ℕ → ℕ
divide_digits n d = let q = n / d in if not (n % d == 0) && q % 5 == 0 then q + 1 else q

-- `none` is the exception that a division by zero raises.
unfoldable pub div : Decimal → Decimal → Option Decimal
unfolding fix num_digits divide_digits
div a b =
    let shift = num_digits (magnitude b.coeff) + prec + 1 + b.scale in
    let q = divide_digits (magnitude a.coeff * 10 ^ shift) (magnitude b.coeff) in
    if magnitude b.coeff == 0
    then none
    else some (fix (with_sign (quotient_sign a.coeff b.coeff) q) (a.scale + shift - b.scale))

infix 50 ◌≺◌ ◌≼◌
unfoldable pub ◌≺◌ : Decimal → Decimal → Bool
a ≺ b = let s = max a.scale b.scale in ltb_ℤ (at_scale s a) (at_scale s b)

unfoldable pub ◌≼◌ : Decimal → Decimal → Bool
a ≼ b = let s = max a.scale b.scale in leb_ℤ (at_scale s a) (at_scale s b)

-- `min(a, b)` and `max(a, b)`: the first of two equal arguments.
unfoldable pub min_of : Decimal → Decimal → Decimal
min_of a b = if b ≺ a then b else a

unfoldable pub max_of : Decimal → Decimal → Decimal
max_of a b = if a ≺ b then b else a

abbrev pub abs : Decimal → Decimal
abs a = decimal (pos (magnitude a.coeff)) a.scale

-- `to_integral_value` with ROUND_DOWN (toward zero) and with ROUND_UP (away from zero). Both exact.
unfoldable pub truncate : Decimal → Decimal
truncate a = decimal (with_sign a.coeff (magnitude a.coeff / 10 ^ a.scale)) 0

unfoldable pub round_up : Decimal → Decimal
round_up a =
    let q = magnitude a.coeff / 10 ^ a.scale in
    let r = magnitude a.coeff % 10 ^ a.scale in
    decimal (with_sign a.coeff (if r == 0 then q else q + 1)) 0

-- `sum(xs, ZERO)`, from the left.
unfoldable pub sum_from : Decimal → List Decimal → Decimal
sum_from acc [] = acc
sum_from acc (x ∷ xs) = sum_from (acc ⊕ x) xs

unfoldable pub sum : List Decimal → Decimal
unfolding sum_from
sum = sum_from nought

-- The greatest number whose square is at most `n`: each round drops two binary digits.
root_from : ℕ → ℕ → ℕ
root_from zero n = 0
root_from (suc fuel) n =
    let twice = 2 * root_from fuel (n / 4) in
    if leb ((twice + 1) * (twice + 1)) n then twice + 1 else twice

-- `a.sqrt()` of a number that is not negative: the root of enough digits, its last digit moved off 0
-- and 5 by a remainder, rounded; an exact root keeps half of the scale.
unfoldable pub sqrt : Decimal → Decimal
unfolding fix num_digits root_from
sqrt a =
    let half = (a.scale + 1) / 2 in
    let shift = prec + 1 in
    let c = magnitude a.coeff * 10 ^ (2 * half - a.scale) * 10 ^ (2 * shift) in
    let n = root_from (2 * num_digits c) c in
    if n * n == c
    then fix (pos (n / 10 ^ shift)) half
    else fix (pos (if n % 5 == 0 then n + 1 else n)) (half + shift)
