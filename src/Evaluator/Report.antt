-- ===== src/Evaluator/Report.antt =====
-- src/atlas/strategy/evaluator.py, `explain`: every condition of every rule on a bar. Texts are left out.
use atlas_ai_trading.Decimal.{Decimal}
use atlas_ai_trading.Evaluator.{Computed, compute_indicators, evaluate_condition, operand_value}
use atlas_ai_trading.Market.{Kline}
use atlas_ai_trading.Prelude.{
  Bool, List, Option, [], all, keep, length, map, not, or_default, ℕ, ◌∷◌,
}
use atlas_ai_trading.Spec.{Condition, EntryRule, StrategySpec}
use atlas_ai_trading.World.{PositionSide}

-- `ConditionResult`; the texts of its operands are those of the condition.
pub record ConditionResult : Type 0 where
  pub condition : Condition
  pub left_value : Option Decimal
  pub right_value : Option Decimal
  pub has_passed : Bool

pub record RuleResult : Type 0 where
  pub side : PositionSide
  pub conditions : List ConditionResult

-- `RuleResult.passed` and `failed_conditions`
abbrev pub rule_passed : RuleResult → Bool
rule_passed r = all (λ (c : ConditionResult). c.has_passed) r.conditions

unfoldable pub failed_conditions : RuleResult → List ConditionResult
failed_conditions r = keep (λ (c : ConditionResult). not c.has_passed) r.conditions

unfoldable pub explain_condition : ℕ → List Kline → Computed → Condition → ConditionResult
unfolding evaluate_condition operand_value
explain_condition index ks computed c = record {
  condition = c;
  left_value = operand_value c.left index ks computed;
  right_value = operand_value c.right index ks computed;
  has_passed = evaluate_condition c index ks computed;
}

unfoldable pub explain_rule : ℕ → List Kline → Computed → EntryRule → RuleResult
unfolding explain_condition
explain_rule index ks computed e = record {
  side = e.side;
  conditions = map (explain_condition index ks computed) e.conditions;
}

unfoldable pub explain : StrategySpec → List Kline → Option ℕ → List RuleResult
unfolding explain_rule compute_indicators
explain s [] index = []
explain s (k ∷ ks) index =
    map
      (explain_rule (or_default index (length ks)) (k ∷ ks)
        (compute_indicators s.indicators (k ∷ ks)))
      s.entries
