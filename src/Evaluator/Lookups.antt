-- ===== src/Evaluator/Lookups.antt =====
-- src/atlas/strategy/evaluator.py, `evaluate` with the `KeyError` of `computed[ref]`: the tests and the
-- levels are read in the code's order, and each reads only the series that it needs.
use atlas_ai_trading.Decimal.{Decimal}
use atlas_ai_trading.Evaluator.{
  Computed, Signal, both, compute_indicators, cons_some, held_before, holds_now, is_crossing,
  price_in, referenced, signal_from, stop_price_of,
}
use atlas_ai_trading.Indicators.{Series, at}
use atlas_ai_trading.Market.{Kline}
use atlas_ai_trading.Prelude.{
  Bool, List, Option, [], false, get_elem?, if◌then◌else◌, is_some, none, not, some, suc, true,
  zero, ℕ, ◌&&◌, ◌++◌, ◌+◌, ◌∷◌,
}
use atlas_ai_trading.Prelude.Text.{Text, text_eq}
use atlas_ai_trading.Spec.{
  Condition, EntryRule, Operand, StopKind, StrategySpec, TargetKind, constant, indicator, price,
  stop_atr_multiple, stop_percent, target_atr_multiple, target_percent, target_risk_multiple,
}
use atlas_ai_trading.World.{PositionSide, Result, key_error, ok, raised}

abbrev pub and_ok : {A : Type 0} {B : Type 0} → Result A → (A → Result B) → Result B
and_ok (ok a) k = k a
and_ok (raised e) k = raised e

-- `computed[ref]`
unfoldable pub look_up : Text → Computed → Result Series
look_up r [] = raised key_error
look_up r ((s, x) ∷ c) = if text_eq s r then ok x else look_up r c

abbrev pub read_series : Text → ℕ → Computed → Result (Option Decimal)
read_series r index computed = and_ok (look_up r computed) λ x. ok (at x index)

-- `_operand_value`
unfoldable pub read_operand : Operand → ℕ → List Kline → Computed → Result (Option Decimal)
read_operand (constant v) index ks computed = ok (some v)
read_operand (price f) index ks computed = ok (price_in f (get_elem? ks index))
read_operand (indicator r) index ks computed = read_series r index computed

abbrev pub are_known : Option Decimal → Option Decimal → Bool
are_known l r = is_some l && is_some r

-- The operands at the bar before; bar 0 has none.
unfoldable pub read_before : Condition → ℕ → List Kline → Computed → Result Bool
unfolding read_operand
read_before c zero ks computed = ok false
read_before c (suc index) ks computed =
    and_ok (read_operand c.left index ks computed)
      λ l. and_ok (read_operand c.right index ks computed) λ r. ok (both (held_before c.op) l r)

unfoldable pub decide_condition :
    Condition → ℕ → List Kline → Computed → Option Decimal → Option Decimal → Result Bool
unfolding read_before
decide_condition c index ks computed l r =
    if not (are_known l r)
    then ok false
    else if is_crossing c.op
    then and_ok (read_before c index ks computed)
        (λ before. ok (both (holds_now c.op) l r && before))
    else ok (both (holds_now c.op) l r)

-- `_evaluate_condition`
unfoldable pub read_condition : Condition → ℕ → List Kline → Computed → Result Bool
unfolding read_operand decide_condition
read_condition c index ks computed = and_ok (read_operand c.left index ks computed) λ l.
    and_ok (read_operand c.right index ks computed) λ r. decide_condition c index ks computed l r

-- `all(…)`, which stops at the first condition that does not hold.
unfoldable pub read_all : List Condition → ℕ → List Kline → Computed → Result Bool
unfolding read_condition
read_all [] index ks computed = ok true
read_all (c ∷ cs) index ks computed =
    and_ok (read_condition c index ks computed)
      λ holds. elim holds [ true ↦ read_all cs index ks computed | false ↦ ok false ]

abbrev pub read_stop_atr : StopKind → Option Text → ℕ → Computed → Result (Option Decimal)
read_stop_atr stop_percent r index computed = ok none
read_stop_atr stop_atr_multiple r index computed = read_series (referenced r) index computed

abbrev pub read_target_atr : TargetKind → Option Text → ℕ → Computed → Result (Option Decimal)
read_target_atr target_risk_multiple r index computed = ok none
read_target_atr target_percent r index computed = ok none
read_target_atr target_atr_multiple r index computed = read_series (referenced r) index computed

-- The levels of a rule whose conditions hold: the target is read where there is a stop.
abbrev pub with_stop :
    StrategySpec
    → PositionSide
    → Decimal
    → ℕ
    → Computed
    → Option Decimal
    → Option Decimal
    → Result (Option Signal)
with_stop s side reference index computed stop_atr none = ok none
with_stop s side reference index computed stop_atr (some stop_level) =
    and_ok (read_target_atr s.target_rule.kind s.target_rule.indicator_ref index computed)
      λ target_atr. ok (signal_from s side reference index stop_atr target_atr)

unfoldable pub read_signal :
    StrategySpec → PositionSide → Decimal → ℕ → Computed → Result (Option Signal)
unfolding signal_from stop_price_of
read_signal s side reference index computed =
    and_ok (read_stop_atr s.stop_rule.kind s.stop_rule.indicator_ref index computed) λ stop_atr.
      with_stop s side reference index computed stop_atr
        (stop_price_of s.stop_rule side reference stop_atr)

abbrev pub signal_if :
    StrategySpec → PositionSide → Decimal → ℕ → Computed → Bool → Result (Option Signal)
signal_if s side reference index computed true = read_signal s side reference index computed
signal_if s side reference index computed false = ok none

-- The rules on one bar, in their order.
unfoldable pub read_rules :
    StrategySpec → List EntryRule → Decimal → ℕ → List Kline → Computed → Result (List Signal)
unfolding read_all read_signal
read_rules s [] reference index ks computed = ok []
read_rules s (e ∷ es) reference index ks computed =
    and_ok (read_all e.conditions index ks computed) λ holds.
      and_ok (signal_if s e.side reference index computed holds)
        λ g. and_ok (read_rules s es reference index ks computed) λ gs. ok (cons_some g gs)

unfoldable pub read_bars :
    StrategySpec → List Kline → Computed → ℕ → List Kline → Result (List Signal)
unfolding read_rules
read_bars s ks computed index [] = ok []
read_bars s ks computed index (k ∷ rest) =
    and_ok (read_rules s s.entries k.close index ks computed)
      λ gs. and_ok (read_bars s ks computed (index + 1) rest) λ hs. ok (gs ++ hs)

-- `evaluate`
unfoldable pub evaluate_or_raise : StrategySpec → List Kline → Result (List Signal)
unfolding read_bars compute_indicators
evaluate_or_raise s ks = read_bars s ks (compute_indicators s.indicators ks) 0 ks
