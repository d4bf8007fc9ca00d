-- ===== src/Incubation/Divergence.antt =====
-- src/atlas/incubation/divergence.py: the paper trades against the backtest. The texts of the reasons
-- are left out.
pub mod Eligibility
use atlas_ai_trading.Decimal.{Decimal, abs, max_of, nought, of_ℕ, one, sum, ◌≺◌, ◌⊕◌, ◌⊖◌, ◌⊗◌}
use atlas_ai_trading.Incubation.{IncubationSignal, is_closed}
use atlas_ai_trading.Indicators.{over}
use atlas_ai_trading.Monitor.Health.{is_loss_of, is_win_of, profit_factor_of}
use atlas_ai_trading.Prelude.{
  Bool, Bool-cases, List, Option, [], arith, false, if◌then◌else◌, inl, inr, keep, length, ltb,
  none, not, refl, some, true, ℕ, ◌&&◌, ◌-◌, ◌∷◌, ◌≡◌,
}
use atlas_ai_trading.Regime.{positive_quotient}

pub record IncubationThresholds : Type 0 where
  pub min_days : ℕ
  pub min_closed : ℕ
  pub min_profit_factor_retention : Decimal
  pub max_drawdown_multiple : Decimal

pub record IncubationMetrics : Type 0 where
  pub trade_count : ℕ
  pub num_wins : ℕ
  pub num_losses : ℕ
  pub paper_win_rate : Decimal
  pub paper_profit_factor : Decimal
  pub total_return : Decimal
  pub worst_drawdown : Decimal

pub data DivergenceReason : Type 0 where
  too_short too_few_trades profit_factor_lost drawdown_exceeded : DivergenceReason

pub record DivergenceCheck : Type 0 where
  pub is_eligible : Bool
  pub divergences : List DivergenceReason
  pub paper_metrics : IncubationMetrics

-- The returns of the closed trades.
unfoldable pub cons_return : Option Decimal → List Decimal → List Decimal
cons_return none rs = rs
cons_return (some r) rs = r ∷ rs

unfoldable pub closed_returns : List IncubationSignal → List Decimal
unfolding cons_return
closed_returns [] = []
closed_returns (s ∷ ss) =
    if is_closed s then cons_return s.return_pct (closed_returns ss) else closed_returns ss

-- The loop over the equity of one unit: what is left, its peak, and the worst drawdown.
pub record Curve : Type 0 where
  pub level : Decimal
  pub peak : Decimal
  pub worst : Decimal

unfoldable pub compound : Decimal → Curve → Curve
compound r c =
    let level = c.level ⊗ (one ⊕ r) in
    let peak = max_of c.peak level in
    record {
      level = level;
      peak = peak;
      worst =
          if nought ≺ peak then max_of c.worst (positive_quotient (peak ⊖ level) peak) else c.worst;
    }

unfoldable pub compound_all : List Decimal → Curve → Curve
unfolding compound
compound_all [] c = c
compound_all (r ∷ rs) c = compound_all rs (compound r c)

unfoldable pub metrics_of : List Decimal → IncubationMetrics
unfolding compound_all profit_factor_of
metrics_of [] = record {
  trade_count = 0;
  num_wins = 0;
  num_losses = 0;
  paper_win_rate = nought;
  paper_profit_factor = nought;
  total_return = nought;
  worst_drawdown = nought;
}
metrics_of (r ∷ rs) =
    let returns = r ∷ rs in
    let gains = keep is_win_of returns in
    let end = compound_all returns (record { level = one; peak = one; worst = nought }) in
    record {
      trade_count = length returns;
      num_wins = length gains;
      num_losses = length returns - length gains;
      paper_win_rate = over (of_ℕ (length gains)) (length returns);
      paper_profit_factor = profit_factor_of (sum gains) (abs (sum (keep is_loss_of returns)));
      total_return = end.level ⊖ one;
      worst_drawdown = end.worst;
    }

-- `compute_metrics`
unfoldable pub compute_metrics : List IncubationSignal → IncubationMetrics
unfolding metrics_of
compute_metrics ss = metrics_of (closed_returns ss)

abbrev reason_if : Bool → DivergenceReason → List DivergenceReason → List DivergenceReason
reason_if true r rs = r ∷ rs
reason_if false r rs = rs

abbrev has_no_reason : List DivergenceReason → Bool
has_no_reason [] = true
has_no_reason (r ∷ rs) = false

-- `check_divergence`, with the profit factor and the drawdown of the backtest.
unfoldable pub check_divergence :
    List IncubationSignal
    → (backtest_profit_factor backtest_drawdown : Decimal) → (elapsed : ℕ) → IncubationThresholds
    → DivergenceCheck
check_divergence ss backtest_profit_factor backtest_drawdown elapsed t =
    let m = compute_metrics ss in
    let found = reason_if (ltb elapsed t.min_days) too_short (
      reason_if (ltb m.trade_count t.min_closed) too_few_trades (
        reason_if (m.paper_profit_factor ≺ backtest_profit_factor ⊗ t.min_profit_factor_retention)
          profit_factor_lost
          (reason_if
            ((nought ≺ backtest_drawdown)
              && (backtest_drawdown ⊗ t.max_drawdown_multiple ≺ m.worst_drawdown))
            drawdown_exceeded []))) in
    record { is_eligible = has_no_reason found; divergences = found; paper_metrics = m }
