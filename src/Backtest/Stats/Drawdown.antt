-- ===== src/Backtest/Stats/Drawdown.antt =====
-- src/atlas/backtest/stats.py, the drawdown: the one pass of the loop against the list of the declines.
use atlas_ai_trading.Backtest.Stats.{drawdown_from, worst_drawdown_of}
use atlas_ai_trading.Decimal.{Decimal, max_of, nought, ◌≺◌, ◌≼◌, ◌⊖◌}
use atlas_ai_trading.Decimal.Order.{le_refl, le_trans, max_of-ge_left, max_of-ge_right}
use atlas_ai_trading.Prelude.{
  All, Bool-cases, List, [], if◌then◌else◌, inl, inr, refl, true, ◌∷◌, ◌≡◌,
}
use atlas_ai_trading.Regime.{positive_quotient}

-- The declines of a curve from the peak so far, where that is positive.
abbrev pub declines : Decimal → List Decimal → List Decimal
declines peak [] = []
declines peak (v ∷ vs) =
    let high_mark = max_of peak v in
    let rest = declines high_mark vs in
    if nought ≺ high_mark then positive_quotient (high_mark ⊖ v) high_mark ∷ rest else rest

abbrev pub declines_of : List Decimal → List Decimal
declines_of [] = []
declines_of (v ∷ vs) = declines v (v ∷ vs)

-- The greatest of a number and of a list.
abbrev pub worst_of : Decimal → List Decimal → Decimal
worst_of worst [] = worst
worst_of worst (d ∷ ds) = worst_of (max_of worst d) ds

abbrev pub AtMost : Decimal → Decimal → Type 0
AtMost bound d = (d ≼ bound) ≡ true

drawdown_from-bounds :
    (peak worst : Decimal) (vs : List Decimal)
    → AtMost (drawdown_from peak worst vs) worst
      × All (AtMost (drawdown_from peak worst vs)) (declines peak vs)
unfolding drawdown_from
drawdown_from-bounds peak worst [] = (le_refl worst, tt)
drawdown_from-bounds peak worst (v ∷ vs) =
    let high_mark = max_of peak v in
    let decline = positive_quotient (high_mark ⊖ v) high_mark in
    elim (Bool-cases (nought ≺ high_mark)) [
      | inl p ↦
          let next = max_of worst decline in
          let end = drawdown_from high_mark next vs in
          let rest = drawdown_from-bounds high_mark next vs in
          rw p (
            le_trans worst next end (max_of-ge_left worst decline) rest.0,
            (le_trans decline next end (max_of-ge_right worst decline) rest.0, rest.1),
          )
      | inr n ↦ rw n (drawdown_from-bounds high_mark worst vs)
    ]

drawdown_from-worst_of :
    (peak worst : Decimal) (vs : List Decimal)
    → drawdown_from peak worst vs ≡ worst_of worst (declines peak vs)
unfolding drawdown_from
drawdown_from-worst_of peak worst [] = refl
drawdown_from-worst_of peak worst (v ∷ vs) =
    let high_mark = max_of peak v in
    let decline = positive_quotient (high_mark ⊖ v) high_mark in
    elim (Bool-cases (nought ≺ high_mark)) [
      | inl p ↦ rw p (drawdown_from-worst_of high_mark (max_of worst decline) vs)
      | inr n ↦ rw n (drawdown_from-worst_of high_mark worst vs)
    ]

-- The drawdown of a curve is not negative, every decline of the curve from its peak so far is at most
-- that drawdown, and the drawdown is the greatest of nought and of those declines.
pub worst_drawdown-bounds :
    (curve : List Decimal)
    → ((nought ≼ worst_drawdown_of curve) ≡ true)
      × All (AtMost (worst_drawdown_of curve)) (declines_of curve)
      × (worst_drawdown_of curve ≡ worst_of nought (declines_of curve))
unfolding worst_drawdown_of
worst_drawdown-bounds [] = (le_refl nought, tt, refl)
worst_drawdown-bounds (v ∷ vs) =
    let (above, each) = drawdown_from-bounds v nought (v ∷ vs) in
    (above, each, drawdown_from-worst_of v nought (v ∷ vs))
