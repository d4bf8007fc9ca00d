-- ===== src/Selection.antt =====
-- src/atlas/selection/gates.py: the criteria that a backtest must meet. The texts of the details are
-- left out.
pub mod Verdict
use atlas_ai_trading.Decimal.{Decimal, nought, ◌⊗◌, ◌≺◌, ◌≼◌}
use atlas_ai_trading.Prelude.{
  Bool, List, Option, [], all, false, if◌then◌else◌, keep, leb, none, not, some, true, ℕ, ◌&&◌,
  ◌++◌, ◌||◌, ◌∷◌,
}
use atlas_ai_trading.Prelude.Text.{Text, text}

pub record SelectionThresholds : Type 0 where
  pub min_trades : ℕ
  pub max_drawdown : Decimal
  pub min_profit_factor : Decimal
  pub min_expectancy : Decimal
  pub require_beats_buy_and_hold : Bool
  pub min_oos_profit_factor : Decimal
  pub min_oos_retention : Decimal
  pub stop_band_low : Decimal
  pub stop_band_high : Decimal

-- `BacktestStats`, as far as the gates read it.
pub record BacktestStats : Type 0 where
  pub trade_count : ℕ
  pub max_drawdown : Decimal
  pub profit_factor : Decimal
  pub expectancy : Decimal
  pub beats_buy_and_hold : Bool

pub data GateVerdict : Type 0 where
  pass fail undefined_policy : GateVerdict

pub record GateResult : Type 0 where
  pub gate_name : Text
  pub verdict : GateVerdict

-- `GateResult.blocks`
abbrev pub blocks : GateResult → Bool
blocks g = elim g.verdict [ pass ↦ false | fail ↦ true | undefined_policy ↦ true ]

abbrev pub verdict_of : Bool → GateVerdict
verdict_of true = pass
verdict_of false = fail

pub record SelectionOutcome : Type 0 where
  pub passed : Bool
  pub gates : List GateResult

abbrev is_undefined : GateResult → Bool
is_undefined g = elim g.verdict [ pass ↦ false | fail ↦ false | undefined_policy ↦ true ]

unfoldable pub failures : SelectionOutcome → List GateResult
failures o = keep blocks o.gates

unfoldable pub undefined : SelectionOutcome → List GateResult
undefined o = keep is_undefined o.gates

abbrev judged : Text → Bool → GateResult
judged name b = record { gate_name = name; verdict = verdict_of b }

abbrev undecided : Text → GateResult
undecided name = record { gate_name = name; verdict = undefined_policy }

-- The conditions of the gates.
abbrev pub retention_ok : BacktestStats → BacktestStats → SelectionThresholds → Bool
retention_ok in_sample oos t =
    (in_sample.profit_factor ≼ nought)
    || (in_sample.profit_factor ⊗ t.min_oos_retention ≼ oos.profit_factor)

unfoldable pub out_of_sample_gate :
    BacktestStats → Option BacktestStats → SelectionThresholds → GateResult
out_of_sample_gate in_sample none t = undecided (text "SEL-06 out_of_sample")
out_of_sample_gate in_sample (some oos) t =
    judged (text "SEL-06 out_of_sample")
      ((t.min_oos_profit_factor ≼ oos.profit_factor) && retention_ok in_sample oos t)

unfoldable pub stop_distance_gate : Option Decimal → SelectionThresholds → GateResult
stop_distance_gate none t = undecided (text "SEL-07 stop_distance_feasible")
stop_distance_gate (some d) t =
    judged (text "SEL-07 stop_distance_feasible") ((t.stop_band_low ≼ d) && (d ≼ t.stop_band_high))

-- The gates that come after the fourth.
unfoldable pub buy_and_hold_gate : BacktestStats → SelectionThresholds → List GateResult
buy_and_hold_gate s t =
    if t.require_beats_buy_and_hold
    then judged (text "SEL-05 beats_buy_and_hold") s.beats_buy_and_hold ∷ []
    else []

-- `passed=all(not g.blocks for g in gates)`
abbrev outcome_of : List GateResult → SelectionOutcome
outcome_of gs = record { passed = all (λ g. not (blocks g)) gs; gates = gs }

unfoldable pub evaluate_gates :
    BacktestStats → Option BacktestStats → Option Decimal → SelectionThresholds → SelectionOutcome
unfolding buy_and_hold_gate out_of_sample_gate stop_distance_gate
evaluate_gates s oos median t = outcome_of (
    judged (text "SEL-01 trade_count") (leb t.min_trades s.trade_count)
    ∷ judged (text "SEL-02 max_drawdown") (s.max_drawdown ≼ t.max_drawdown)
    ∷ judged (text "SEL-03 profit_factor") (t.min_profit_factor ≼ s.profit_factor)
    ∷ judged (text "SEL-04 expectancy") (t.min_expectancy ≺ s.expectancy)
    ∷ (buy_and_hold_gate s t ++ (out_of_sample_gate s oos t ∷ stop_distance_gate median t ∷ [])))
