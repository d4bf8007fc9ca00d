-- ===== src/Evaluator/Causality.antt =====
-- Signals over a longer history, `evaluate` of src/atlas/strategy/evaluator.py.
use mathlib.Core.List.{append_assoc}
use atlas_ai_trading.Decimal.{Decimal}
use atlas_ai_trading.Evaluator.{
  Computed, Signal, compute_indicators, crossed, evaluate, evaluate_condition, evaluate_from,
  operand_value, referenced, rule_fires, series_of, signal_from, signal_of, signals_at, stop_atr_of,
  target_atr_of,
}
use atlas_ai_trading.Evaluator.Levels.{signal_of-bar_index, signals_at-All}
use atlas_ai_trading.Indicators.{at}
use atlas_ai_trading.Indicators.Bars.{compute-prefix}
use atlas_ai_trading.Market.{Kline}
use atlas_ai_trading.Prelude.{
  All, All-append, Bool-cases, List, Option, [], all, ap, arith, inl, inr, length, refl, suc, sym,
  true, zero, ℕ, ◌++◌, ◌+◌, ◌<◌, ◌∙◌, ◌∷◌, ◌≡◌, ◌≤◌,
}
use atlas_ai_trading.Prelude.Slices.{get_elem?-append}
use atlas_ai_trading.Prelude.Text.{Text, text_eq}
use atlas_ai_trading.Spec.{
  Condition, EntryRule, IndicatorSpec, Operand, StopKind, StrategySpec, TargetKind, constant,
  indicator, is_valid_indicator, is_valid_spec, price, stop_atr_multiple, stop_percent,
  target_atr_multiple, target_percent, target_risk_multiple,
}
use atlas_ai_trading.World.{PositionSide}

-- Two sets of series have the same values before a bar.
abbrev Agree : ℕ → Computed → Computed → Type 0
Agree n c d = (r : Text) (i : ℕ) → i < n → at (series_of r c) i ≡ at (series_of r d) i

-- Every indicator has a period.
abbrev HasPeriods : List IndicatorSpec → Type 0
HasPeriods = All (λ (i : IndicatorSpec). 1 ≤ i.period)

compute_indicators-prefix :
    (is : List IndicatorSpec) (ks more : List Kline)
    → HasPeriods is
    → Agree (length ks) (compute_indicators is (ks ++ more)) (compute_indicators is ks)
unfolding compute_indicators series_of
compute_indicators-prefix [] ks more h r i b = refl
compute_indicators-prefix (s ∷ is) ks more h r i b = elim (Bool-cases (text_eq s.id r)) [
  | inl y ↦ rw y (compute-prefix s.indicator_name ks more s.period i h.0 b)
  | inr n ↦ rw n (compute_indicators-prefix is ks more h.1 r i b)
]

module _ (ks more : List Kline) (c d : Computed) (agree : Agree (length ks) c d) where
  operand_value-prefix :
      (o : Operand) (i : ℕ)
      → i < length ks
      → operand_value o i (ks ++ more) c ≡ operand_value o i ks d
  unfolding operand_value
  operand_value-prefix (constant v) i b = refl
  operand_value-prefix (price f) i b = rw (get_elem?-append ks more i b) refl
  operand_value-prefix (indicator r) i b = agree r i b

  crossed-prefix :
      (q : Condition) (i : ℕ) → i < length ks → crossed q i (ks ++ more) c ≡ crossed q i ks d
  unfolding crossed
  crossed-prefix q zero b = refl
  crossed-prefix q (suc i) b =
      rw (operand_value-prefix q.left i (omega arith), operand_value-prefix q.right i (omega arith))
        refl

  evaluate_condition-prefix :
      (q : Condition) (i : ℕ)
      → i < length ks
      → evaluate_condition q i (ks ++ more) c ≡ evaluate_condition q i ks d
  unfolding evaluate_condition
  evaluate_condition-prefix q i b =
      rw (operand_value-prefix q.left i b, operand_value-prefix q.right i b, crossed-prefix q i b)
        refl

  conditions-prefix :
      (qs : List Condition) (i : ℕ)
      → i < length ks
      → all (λ q. evaluate_condition q i (ks ++ more) c) qs
        ≡ all (λ q. evaluate_condition q i ks d) qs
  conditions-prefix [] i b = refl
  conditions-prefix (q ∷ qs) i b =
      rw (evaluate_condition-prefix q i b, conditions-prefix qs i b) refl

  stop_atr_of-prefix :
      (kind : StopKind) (r : Option Text) (i : ℕ)
      → i < length ks
      → stop_atr_of kind r i c ≡ stop_atr_of kind r i d
  stop_atr_of-prefix stop_percent r i b = refl
  stop_atr_of-prefix stop_atr_multiple r i b = agree (referenced r) i b

  target_atr_of-prefix :
      (kind : TargetKind) (r : Option Text) (i : ℕ)
      → i < length ks
      → target_atr_of kind r i c ≡ target_atr_of kind r i d
  target_atr_of-prefix target_risk_multiple r i b = refl
  target_atr_of-prefix target_percent r i b = refl
  target_atr_of-prefix target_atr_multiple r i b = agree (referenced r) i b

  signal_of-prefix :
      (s : StrategySpec) (side : PositionSide) (reference : Decimal) (i : ℕ)
      → i < length ks
      → signal_of s side reference i c ≡ signal_of s side reference i d
  unfolding signal_of
  signal_of-prefix s side reference i b =
      let stop_d = stop_atr_of s.stop_rule.kind s.stop_rule.indicator_ref i d in
      let target_c = target_atr_of s.target_rule.kind s.target_rule.indicator_ref i c in
      ap (λ x. signal_from s side reference i x target_c)
        (stop_atr_of-prefix s.stop_rule.kind s.stop_rule.indicator_ref i b)
      ∙ ap (λ x. signal_from s side reference i stop_d x)
          (target_atr_of-prefix s.target_rule.kind s.target_rule.indicator_ref i b)

  signals_at-prefix :
      (s : StrategySpec) (es : List EntryRule) (reference : Decimal) (i : ℕ)
      → i < length ks
      → signals_at s es reference i (ks ++ more) c ≡ signals_at s es reference i ks d
  unfolding signals_at rule_fires
  signals_at-prefix s [] reference i b = refl
  signals_at-prefix s (e ∷ es) reference i b =
      rw
        (
          conditions-prefix e.conditions i b,
          signal_of-prefix s e.side reference i b,
          signals_at-prefix s es reference i b,
        )
        refl

  evaluate_from-prefix :
      (s : StrategySpec) (i : ℕ) (rest : List Kline)
      → i + length rest ≡ length ks
      → evaluate_from s (ks ++ more) c i (rest ++ more)
        ≡ evaluate_from s ks d i rest ++ evaluate_from s (ks ++ more) c (length ks) more
  unfolding evaluate_from
  evaluate_from-prefix s i [] e = let e' : i ≡ length ks = omega arith in rw e' refl
  evaluate_from-prefix s i (k ∷ rest) e =
      rw
        (
          signals_at-prefix s s.entries k.close i (omega arith),
          evaluate_from-prefix s (i + 1) rest (omega arith),
        )
        (sym (
          append_assoc (signals_at s s.entries k.close i ks d) (evaluate_from s ks d (i + 1) rest)
            (evaluate_from s (ks ++ more) c (length ks) more)))

periods_of_valid : (is : List IndicatorSpec) → all is_valid_indicator is ≡ true → HasPeriods is
unfolding is_valid_indicator
periods_of_valid [] h = tt
periods_of_valid (i ∷ is) h = (ground arith, periods_of_valid is (ground arith))

HasPeriods-valid : (s : StrategySpec) → is_valid_spec s ≡ true → HasPeriods s.indicators
unfolding is_valid_spec
HasPeriods-valid s h = periods_of_valid s.indicators (ground arith)

pub evaluate_from-IsLate :
    (s : StrategySpec) (ks : List Kline) (c : Computed) (n i : ℕ) (rest : List Kline)
    → n ≤ i
    → All (λ (g : Signal). n ≤ g.bar_index) (evaluate_from s ks c i rest)
unfolding evaluate_from
evaluate_from-IsLate s ks c n i [] h = tt
evaluate_from-IsLate s ks c n i (k ∷ rest) h =
    All-append _ (signals_at s s.entries k.close i ks c) _
      (signals_at-All (λ (g : Signal). n ≤ g.bar_index) s s.entries k.close i ks c
        λ side g q. omega (arith, signal_of-bar_index s side k.close i c g q))
      (evaluate_from-IsLate s ks c n (i + 1) rest (omega arith))

-- BT-01: over a longer history, the signals of a valid spec begin with exactly those over the shorter
-- one, and all others stand on later bars.
pub evaluate-prefix :
    (s : StrategySpec) (ks more : List Kline)
    → is_valid_spec s ≡ true
    → (late : List Signal) × (evaluate s (ks ++ more) ≡ evaluate s ks ++ late)
      × All (λ (g : Signal). length ks ≤ g.bar_index) late
unfolding evaluate
evaluate-prefix s ks more h =
    let c = compute_indicators s.indicators (ks ++ more) in
    (
      evaluate_from s (ks ++ more) c (length ks) more,
      evaluate_from-prefix ks more c (compute_indicators s.indicators ks)
          (compute_indicators-prefix s.indicators ks more (HasPeriods-valid s h)) s 0 ks
          (omega arith),
      evaluate_from-IsLate s (ks ++ more) c (length ks) (length ks) more (omega arith),
    )
