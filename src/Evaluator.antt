-- ===== src/Evaluator.antt =====
-- src/atlas/strategy/evaluator.py: the signals of a spec over closed bars, and why a rule fired or did
-- not. A series that is missing has no values here; Lookups has the evaluation with the `KeyError` that
-- the code raises for it.
pub mod Lookups
pub mod Causality
pub mod Levels
pub mod Report
pub mod Explanation
use atlas_ai_trading.Decimal.{Decimal, abs, div, nought, ◌≺◌, ◌≼◌, ◌⊕◌, ◌⊖◌, ◌⊗◌}
use atlas_ai_trading.Indicators.{Series, at, is_zero}
use atlas_ai_trading.Indicators.Registry.{compute}
use atlas_ai_trading.Market.{Kline}
use atlas_ai_trading.Prelude.{
  Bool, List, Option, [], all, and_then, false, get_elem?, if◌then◌else◌, leb, length, max, none,
  or_default, some, suc, true, zero, ℕ, ◌&&◌, ◌++◌, ◌+◌, ◌∷◌,
}
use atlas_ai_trading.Prelude.Text.{Text, text, text_eq}
use atlas_ai_trading.Spec.{
  Comparator, Condition, EntryRule, IndicatorSpec, Operand, PriceField, StopKind, StopRule,
  StrategySpec, TargetKind, TargetRule, constant, cross_above, cross_below, field_close, field_high,
  field_low, field_open, field_volume, gt, gte, indicator, lt, lte, price, stop_atr_multiple,
  stop_percent, target_atr_multiple, target_percent, target_risk_multiple,
}
use atlas_ai_trading.World.{Done, PositionSide, Result, long, ok, raised, short, value_error}

pub record Signal : Type 0 where
  pub bar_index : ℕ
  pub side : PositionSide
  pub reference_price : Decimal
  pub stop_price : Decimal
  pub target_price : Decimal

-- `Signal.stop_distance`, `stop_distance_fraction` and `reward_risk`
unfoldable pub signal_stop_distance : Signal → Decimal
signal_stop_distance s = abs (s.reference_price ⊖ s.stop_price)

unfoldable pub stop_distance_fraction : Signal → Option Decimal
unfolding signal_stop_distance
stop_distance_fraction s = div (signal_stop_distance s) s.reference_price

unfoldable pub reward_risk : Signal → Option Decimal
unfolding signal_stop_distance
reward_risk s =
    if is_zero (signal_stop_distance s)
    then some nought
    else div (abs (s.target_price ⊖ s.reference_price)) (signal_stop_distance s)

abbrev pub Computed : Type 0
Computed = List (Text × Series)

unfoldable pub compute_indicators : List IndicatorSpec → List Kline → Computed
compute_indicators [] ks = []
compute_indicators (i ∷ is) ks =
    (i.id, compute i.indicator_name ks i.period) ∷ compute_indicators is ks

-- The series under a key, empty where there is none.
unfoldable pub series_of : Text → Computed → Series
series_of r [] = []
series_of r ((s, x) ∷ c) = if text_eq s r then x else series_of r c

abbrev pub price_of_bar : PriceField → Kline → Decimal
price_of_bar field_open k = k.open_price
price_of_bar field_high k = k.high
price_of_bar field_low k = k.low
price_of_bar field_close k = k.close
price_of_bar field_volume k = k.volume

abbrev pub price_in : PriceField → Option Kline → Option Decimal
price_in f none = none
price_in f (some k) = some (price_of_bar f k)

unfoldable pub operand_value : Operand → ℕ → List Kline → Computed → Option Decimal
unfolding series_of
operand_value (constant v) index ks c = some v
operand_value (price f) index ks c = price_in f (get_elem? ks index)
operand_value (indicator r) index ks c = at (series_of r c) index

-- The comparators that need no earlier bar; the others make no claim here.
abbrev pub holds_now : Comparator → Decimal → Decimal → Bool
holds_now gt l r = r ≺ l
holds_now lt l r = l ≺ r
holds_now gte l r = r ≼ l
holds_now lte l r = l ≼ r
holds_now cross_above l r = r ≺ l
holds_now cross_below l r = l ≺ r

-- What a crossing needs of the bar before.
abbrev pub held_before : Comparator → Decimal → Decimal → Bool
held_before cross_above l r = l ≼ r
held_before cross_below l r = r ≼ l
held_before _ l r = true

abbrev pub is_crossing : Comparator → Bool
is_crossing cross_above = true
is_crossing cross_below = true
is_crossing _ = false

abbrev pub both : (Decimal → Decimal → Bool) → Option Decimal → Option Decimal → Bool
both test none r = false
both test (some l) none = false
both test (some l) (some r) = test l r

-- The part of a condition that reads the bar before; bar 0 has none.
unfoldable pub crossed : Condition → ℕ → List Kline → Computed → Bool
unfolding operand_value
crossed c zero ks computed = false
crossed c (suc index) ks computed =
    both (held_before c.op) (operand_value c.left index ks computed)
      (operand_value c.right index ks computed)

unfoldable pub evaluate_condition : Condition → ℕ → List Kline → Computed → Bool
unfolding crossed operand_value
evaluate_condition c index ks computed =
    both (holds_now c.op) (operand_value c.left index ks computed)
      (operand_value c.right index ks computed)
    && (if is_crossing c.op then crossed c index ks computed else true)

-- `series[index]`, where it is a positive number.
abbrev pub positive_part : Option Decimal → Option Decimal
positive_part none = none
positive_part (some v) = if v ≼ nought then none else some v

abbrev pub referenced : Option Text → Text
referenced r = or_default r (text "None")

-- The distance of the stop; `atr_value` is what the referenced series has at the bar.
stop_offset : StopKind → (value reference : Decimal) → (atr_value : Option Decimal) → Option Decimal
stop_offset stop_percent value reference atr_value = some (reference ⊗ value)
stop_offset stop_atr_multiple value reference atr_value =
    and_then (positive_part atr_value) (λ v. some (v ⊗ value))

abbrev below : PositionSide → Decimal → Decimal → Decimal
below long reference distance = reference ⊖ distance
below short reference distance = reference ⊕ distance

abbrev above : PositionSide → Decimal → Decimal → Decimal
above long reference distance = reference ⊕ distance
above short reference distance = reference ⊖ distance

unfoldable pub stop_price_of :
    StopRule → PositionSide → (reference : Decimal) → (atr_value : Option Decimal) → Option Decimal
unfolding stop_offset
stop_price_of r side reference atr_value =
    and_then (positive_part (stop_offset r.kind r.value reference atr_value))
      (λ distance. positive_part (some (below side reference distance)))

target_offset :
    TargetKind
    → (value reference stop_level : Decimal) → (atr_value : Option Decimal) → Option Decimal
target_offset target_risk_multiple value reference stop_level atr_value =
    some (abs (reference ⊖ stop_level) ⊗ value)
target_offset target_percent value reference stop_level atr_value = some (reference ⊗ value)
target_offset target_atr_multiple value reference stop_level atr_value =
    and_then (positive_part atr_value) (λ v. some (v ⊗ value))

unfoldable pub target_price_of :
    TargetRule
    → PositionSide
    → (reference stop_level : Decimal) → (atr_value : Option Decimal) → Option Decimal
unfolding target_offset
target_price_of r side reference stop_level atr_value =
    and_then (positive_part (target_offset r.kind r.value reference stop_level atr_value))
      (λ distance. positive_part (some (above side reference distance)))

-- The levels stand on their sides of the reference.
abbrev pub levels_in_order : PositionSide → (stop_level reference target_level : Decimal) → Bool
levels_in_order long stop_level reference target_level =
    (stop_level ≺ reference) && (reference ≺ target_level)
levels_in_order short stop_level reference target_level =
    (target_level ≺ reference) && (reference ≺ stop_level)

unfoldable pub rule_fires : EntryRule → ℕ → List Kline → Computed → Bool
unfolding evaluate_condition
rule_fires e index ks computed = all (λ c. evaluate_condition c index ks computed) e.conditions

-- The signal of a rule whose conditions hold, by what the two referenced series have at the bar.
unfoldable pub signal_from :
    StrategySpec
    → PositionSide
    → Decimal
    → ℕ
    → (stop_atr target_atr : Option Decimal) → Option Signal
unfolding stop_price_of target_price_of
signal_from s side reference index stop_atr target_atr =
    and_then (stop_price_of s.stop_rule side reference stop_atr) λ stop_level.
      and_then (target_price_of s.target_rule side reference stop_level target_atr) λ target_level.
        if levels_in_order side stop_level reference target_level
        then some (record {
          bar_index = index;
          side = side;
          reference_price = reference;
          stop_price = stop_level;
          target_price = target_level;
        })
        else none

-- Only the ATR kinds read the series that they name.
abbrev pub stop_atr_of : StopKind → Option Text → ℕ → Computed → Option Decimal
stop_atr_of stop_percent r index computed = none
stop_atr_of stop_atr_multiple r index computed = at (series_of (referenced r) computed) index

abbrev pub target_atr_of : TargetKind → Option Text → ℕ → Computed → Option Decimal
target_atr_of target_risk_multiple r index computed = none
target_atr_of target_percent r index computed = none
target_atr_of target_atr_multiple r index computed = at (series_of (referenced r) computed) index

unfoldable pub signal_of : StrategySpec → PositionSide → Decimal → ℕ → Computed → Option Signal
unfolding signal_from series_of
signal_of s side reference index computed =
    signal_from s side reference index
      (stop_atr_of s.stop_rule.kind s.stop_rule.indicator_ref index computed)
      (target_atr_of s.target_rule.kind s.target_rule.indicator_ref index computed)

abbrev pub cons_some {ℓ} : {A : Type ℓ} → Option A → List A → List A
cons_some none xs = xs
cons_some (some x) xs = x ∷ xs

-- The rules on one bar, in their order.
unfoldable pub signals_at :
    StrategySpec → List EntryRule → Decimal → ℕ → List Kline → Computed → List Signal
unfolding rule_fires signal_of
signals_at s [] reference index ks computed = []
signals_at s (e ∷ es) reference index ks computed =
    cons_some
      (if rule_fires e index ks computed then signal_of s e.side reference index computed else none)
      (signals_at s es reference index ks computed)

-- The bars from an index on.
unfoldable pub evaluate_from : StrategySpec → List Kline → Computed → ℕ → List Kline → List Signal
unfolding signals_at
evaluate_from s ks computed index [] = []
evaluate_from s ks computed index (k ∷ rest) =
    signals_at s s.entries k.close index ks computed ++ evaluate_from s ks computed (index + 1) rest

unfoldable pub evaluate : StrategySpec → List Kline → List Signal
unfolding evaluate_from compute_indicators
evaluate s ks = evaluate_from s ks (compute_indicators s.indicators ks) 0 ks

-- `max((item.period for item in spec.indicators), default=1)`
longest_period : List IndicatorSpec → ℕ
longest_period [] = 1
longest_period (i ∷ []) = i.period
longest_period (i ∷ j ∷ is) = max i.period (longest_period (j ∷ is))

unfoldable pub require_evaluable : StrategySpec → List Kline → Result Done
unfolding longest_period
require_evaluable s ks =
    if leb (length ks) (longest_period s.indicators) then raised value_error else ok tt
