-- ===== src/Selection/Verdict.antt =====
-- Which backtests pass the gates of `evaluate_gates`.
use atlas_ai_trading.Decimal.{Decimal, ◌≺◌, ◌≼◌}
use atlas_ai_trading.Prelude.{
  Bool, List, Option, [], all, arith, false, if◌then◌else◌, keep, leb, length, ltb, none, not, refl,
  some, ◌&&◌, ◌||◌, ◌∷◌, ◌≡◌,
}
use atlas_ai_trading.Selection.{
  BacktestStats, GateResult, SelectionThresholds, blocks, evaluate_gates, failures, retention_ok,
}

-- The criteria, on evidence that is all there.
abbrev pub meets_criteria : BacktestStats → BacktestStats → Decimal → SelectionThresholds → Bool
meets_criteria s oos median t =
    leb t.min_trades s.trade_count
    && (s.max_drawdown ≼ t.max_drawdown)
    && (t.min_profit_factor ≼ s.profit_factor)
    && (t.min_expectancy ≺ s.expectancy)
    && (not t.require_beats_buy_and_hold || s.beats_buy_and_hold)
    && (t.min_oos_profit_factor ≼ oos.profit_factor)
    && retention_ok s oos t
    && (t.stop_band_low ≼ median)
    && (median ≼ t.stop_band_high)

-- A candidate passes exactly where there is an out-of-sample run and a measured stop distance, and all
-- criteria are met: what could not be decided does not pass.
pub evaluate_gates-passed :
    (s : BacktestStats) (oos : Option BacktestStats) (median : Option Decimal)
    (t : SelectionThresholds)
    → (evaluate_gates s oos median t).passed ≡ elim oos [
      | none ↦ false
      | some o ↦ elim median [ none ↦ false | some d ↦ meets_criteria s o d t ]
    ]
unfolding evaluate_gates
evaluate_gates-passed s oos median t = ground arith

-- A candidate is stopped exactly where some gate is reported as a failure.
all-blocks :
    (gs : List GateResult) → all (λ g. not (blocks g)) gs ≡ not (ltb 0 (length (keep blocks gs)))
all-blocks [] = refl
all-blocks (g ∷ gs) = ground (arith, all-blocks gs)

-- Passing is having no failures, and every gate is reported whatever the others say: seven of them, or
-- six where beating buy-and-hold is not required.
evaluate_gates-failures :
    (s : BacktestStats) (oos : Option BacktestStats) (median : Option Decimal)
    (t : SelectionThresholds)
    → let o = evaluate_gates s oos median t in
      (o.passed ≡ not (ltb 0 (length (failures o))))
      × (length o.gates ≡ (if t.require_beats_buy_and_hold then 7 else 6))
unfolding evaluate_gates failures
evaluate_gates-failures s oos median t =
    (all-blocks (evaluate_gates s oos median t).gates, ground arith)
