-- ===== src/Decimal/Order.antt =====
-- Comparison of decimals.
use native.Mathlib.Nat.{pow-suc, mul_left_comm, add-zero, add-suc}
use mathlib.Core.Path.{subst}
use atlas_ai_trading.Decimal.{Decimal, at_scale, decimal, max_of, min_of, ◌≺◌, ◌≼◌}
use atlas_ai_trading.Prelude.{
  ap, arith, false, max, refl, suc, sym, true, zero, ℕ, ◌*◌, ◌+◌, ◌-◌, ◌^◌, ◌∙◌, ◌≡◌, ◌≤◌,
}
use atlas_ai_trading.Prelude.Int.{leb_ℤ, neg, neg_part, negsuc, pos, pos_part, ℤ}

pow_step : (t s : ℕ) → t ≤ s → 10 ^ (suc s - t) ≡ 10 * 10 ^ (s - t)
pow_step t s h =
    let e : suc s - t ≡ suc (s - t) = omega arith in rw e (pow-suc 10 (s - t) ∙ omega arith)

parts_of_neg : (m : ℕ) → (pos_part (neg (pos m)) ≡ 0) × (neg_part (neg (pos m)) ≡ m)
parts_of_neg zero = (refl, refl)
parts_of_neg (suc m) = (refl, refl)

parts_step :
    (c : ℤ) (t s : ℕ)
    → t ≤ s
    → (pos_part (at_scale (suc s) (decimal c t)) ≡ 10 * pos_part (at_scale s (decimal c t)))
      × (neg_part (at_scale (suc s) (decimal c t)) ≡ 10 * neg_part (at_scale s (decimal c t)))
parts_step (pos n) t s h = (rw (pow_step t s h) (mul_left_comm n 10 (10 ^ (s - t))), refl)
parts_step (negsuc n) t s h =
    let big = parts_of_neg (suc n * 10 ^ (suc s - t)) in
    let small = parts_of_neg (suc n * 10 ^ (s - t)) in
    (
      big.0 ∙ omega (arith, small),
      big.1
          ∙ (rw (pow_step t s h)
              (mul_left_comm (suc n) 10 (10 ^ (s - t)) ∙ ap (λ m. 10 * m) (sym small.1))),
    )

leb_step :
    (a b : Decimal) (s : ℕ)
    → a.scale ≤ s
    → b.scale ≤ s
    → leb_ℤ (at_scale (suc s) a) (at_scale (suc s) b) ≡ leb_ℤ (at_scale s a) (at_scale s b)
leb_step a b s h k =
    let p = parts_step a.coeff a.scale s h in let q = parts_step b.coeff b.scale s k in ground arith

-- Two decimals compare as their coefficients do, at any scale that is fine enough for both.
leb_at :
    (a b : Decimal) (k : ℕ)
    → leb_ℤ (at_scale (max a.scale b.scale + k) a) (at_scale (max a.scale b.scale + k) b) ≡ (a ≼ b)
unfolding ◌≼◌
leb_at a b zero = rw add-zero refl
leb_at a b (suc k) =
    rw (add-suc (max a.scale b.scale) k)
      (leb_step a b (max a.scale b.scale + k) (omega arith) (omega arith) ∙ leb_at a b k)

leb_at_scale :
    (a b : Decimal) (s : ℕ)
    → a.scale ≤ s
    → b.scale ≤ s
    → leb_ℤ (at_scale s a) (at_scale s b) ≡ (a ≼ b)
leb_at_scale a b s h k =
    let e : max a.scale b.scale + (s - max a.scale b.scale) ≡ s = omega arith in
    subst (λ t. leb_ℤ (at_scale t a) (at_scale t b) ≡ (a ≼ b)) e
      (leb_at a b (s - max a.scale b.scale))

pub le_trans : (a b c : Decimal) → (a ≼ b) ≡ true → (b ≼ c) ≡ true → (a ≼ c) ≡ true
le_trans a b c h k =
    let s = max a.scale (max b.scale c.scale) in
    let ab = leb_at_scale a b s (omega arith) (omega arith) in
    let bc = leb_at_scale b c s (omega arith) (omega arith) in
    let ac = leb_at_scale a c s (omega arith) (omega arith) in ground arith

pub le_of_lt : (a b : Decimal) → (a ≺ b) ≡ true → (a ≼ b) ≡ true
unfolding ◌≺◌ ◌≼◌
le_of_lt a b h = ground arith

pub le_refl : (a : Decimal) → (a ≼ a) ≡ true
unfolding ◌≼◌
le_refl a = ground arith

pub le_of_not_lt : (a b : Decimal) → (b ≺ a) ≡ false → (a ≼ b) ≡ true
unfolding ◌≺◌ ◌≼◌
le_of_not_lt a b h =
    let e : max a.scale b.scale ≡ max b.scale a.scale = omega arith in rw e (ground arith)

-- `min_of` is below both arguments.
pub min_of-le_left : (a b : Decimal) → (min_of a b ≼ a) ≡ true
unfolding min_of
min_of-le_left a b = ground (arith, le_of_lt b a, le_refl a)

pub min_of-le_right : (a b : Decimal) → (min_of a b ≼ b) ≡ true
unfolding min_of
min_of-le_right a b = ground (arith, le_of_not_lt a b, le_refl b)

-- `max_of` is above both arguments.
pub max_of-ge_left : (a b : Decimal) → (a ≼ max_of a b) ≡ true
unfolding max_of
max_of-ge_left a b = ground (arith, le_of_lt a b, le_refl a)

pub max_of-ge_right : (a b : Decimal) → (b ≼ max_of a b) ≡ true
unfolding max_of
max_of-ge_right a b = ground (arith, le_of_not_lt b a, le_refl b)
