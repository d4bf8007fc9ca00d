-- ===== src/Spec/References.antt =====
-- The references of a valid spec, and the series that `evaluate` looks up.
use atlas_ai_trading.Decimal.{Decimal}
use atlas_ai_trading.Evaluator.{
  Computed, both, compute_indicators, crossed, evaluate, evaluate_condition, evaluate_from,
  holds_now, is_crossing, operand_value, referenced, rule_fires, series_of, signal_from, signal_of,
  signals_at, stop_atr_of, stop_price_of, target_atr_of,
}
use atlas_ai_trading.Evaluator.Lookups.{
  and_ok, decide_condition, evaluate_or_raise, look_up, read_all, read_bars, read_before,
  read_condition, read_operand, read_rules, read_series, read_signal, read_stop_atr,
  read_target_atr, with_stop,
}
use atlas_ai_trading.Indicators.{at}
use atlas_ai_trading.Market.{Kline}
use atlas_ai_trading.Prelude.{
  Bool-cases, List, Option, Option-cases, [], all, ap, arith, false, if◌then◌else◌, inl, inr, none,
  not, refl, some, suc, true, zero, ℕ, ◌&&◌, ◌+◌, ◌∙◌, ◌∷◌, ◌≡◌,
}
use atlas_ai_trading.Prelude.Text.{Text, text_eq}
use atlas_ai_trading.Spec.{
  Condition, EntryRule, IndicatorSpec, Operand, StopKind, StopRule, StrategySpec, TargetKind,
  TargetRule, condition_is_known, constant, indicator, is_known, is_valid_spec, is_valid_stop,
  is_valid_target, lacks_ref, operand_is_known, price, ref_is_known, references_are_valid,
  stop_atr_multiple, stop_percent, target_atr_multiple, target_percent, target_risk_multiple,
}
use atlas_ai_trading.World.{PositionSide, key_error, ok, raised}

look_up_lem :
    (ks : List Kline) (js : List IndicatorSpec) (r : Text)
    → look_up r (compute_indicators js ks)
      ≡ (if is_known js r then ok (series_of r (compute_indicators js ks)) else raised key_error)
unfolding look_up series_of compute_indicators
look_up_lem ks [] r = refl
look_up_lem ks (j ∷ js) r = elim (Bool-cases (text_eq j.id r)) [
  | inl e ↦ rw e refl
  | inr n ↦ rw n (look_up_lem ks js r)
]

module _ (is : List IndicatorSpec) (ks : List Kline) where
  abbrev series_in : Computed
  series_in = compute_indicators is ks

  look_up-known :
      (r : Text) → is_known is r ≡ true → look_up r series_in ≡ ok (series_of r series_in)
  look_up-known r h = look_up_lem ks is r ∙ rw h refl

  read_series-known :
      (r : Text) (index : ℕ)
      → is_known is r ≡ true
      → read_series r index series_in ≡ ok (at (series_of r series_in) index)
  read_series-known r index h = ap (λ y. and_ok y (λ x. ok (at x index))) (look_up-known r h)

  operand-known :
      (o : Operand) (index : ℕ)
      → operand_is_known is o ≡ true
      → read_operand o index ks series_in ≡ ok (operand_value o index ks series_in)
  unfolding read_operand operand_value
  operand-known (constant v) index h = refl
  operand-known (price f) index h = refl
  operand-known (indicator r) index h = read_series-known r index h

  before-known :
      (c : Condition) (index : ℕ)
      → condition_is_known is c ≡ true
      → read_before c index ks series_in ≡ ok (crossed c index ks series_in)
  unfolding read_before crossed
  before-known c zero h = refl
  before-known c (suc index) h =
      rw (operand-known c.left index (ground arith), operand-known c.right index (ground arith))
        refl

  decide-known :
      (c : Condition) (index : ℕ) (l r : Option Decimal)
      → condition_is_known is c ≡ true
      → decide_condition c index ks series_in l r
        ≡ ok (
            both (holds_now c.op) l r
            && (if is_crossing c.op then crossed c index ks series_in else true))
  unfolding decide_condition
  decide-known c index none r h = refl
  decide-known c index (some l) none h = refl
  decide-known c index (some l) (some r) h = elim (Bool-cases (is_crossing c.op)) [
    | inl e ↦ rw (e, before-known c index h) refl
    | inr n ↦ rw n (ap ok (ground arith))
  ]

  condition-known :
      (c : Condition) (index : ℕ)
      → condition_is_known is c ≡ true
      → read_condition c index ks series_in ≡ ok (evaluate_condition c index ks series_in)
  unfolding read_condition evaluate_condition
  condition-known c index h =
      let l = operand_value c.left index ks series_in in
      let r = operand_value c.right index ks series_in in
      let left : read_operand c.left index ks series_in ≡ ok l =
        operand-known c.left index (ground arith) in
      let right : read_operand c.right index ks series_in ≡ ok r =
        operand-known c.right index (ground arith) in
      rw (left, right) (decide-known c index l r h)

  conditions-known :
      (cs : List Condition) (index : ℕ)
      → all (condition_is_known is) cs ≡ true
      → read_all cs index ks series_in ≡ ok (all (λ c. evaluate_condition c index ks series_in) cs)
  unfolding read_all
  conditions-known [] index h = refl
  conditions-known (c ∷ cs) index h =
      let first = condition-known c index (ground arith) in
      elim (Bool-cases (evaluate_condition c index ks series_in)) [
        | inl e ↦ rw (first, e) (conditions-known cs index (ground arith))
        | inr n ↦ rw (first, n) refl
      ]

  ref-known :
      (r : Option Text)
      → lacks_ref r ≡ false
      → ref_is_known is r ≡ true
      → is_known is (referenced r) ≡ true
  ref-known none n h = absurd cc
  ref-known (some r) n h = h

  stop_kind-known :
      (kind : StopKind) (r : Option Text) (index : ℕ)
      → ref_is_known is r ≡ true
      → elim kind [ stop_atr_multiple ↦ not (lacks_ref r) | stop_percent ↦ true ] ≡ true
      → read_stop_atr kind r index series_in ≡ ok (stop_atr_of kind r index series_in)
  stop_kind-known stop_percent r index h v = refl
  stop_kind-known stop_atr_multiple r index h v =
      read_series-known (referenced r) index (ref-known r (ground arith) h)

  target_kind-known :
      (kind : TargetKind) (r : Option Text) (index : ℕ)
      → ref_is_known is r ≡ true
      → elim kind [
        | target_atr_multiple ↦ not (lacks_ref r)
        | target_percent ↦ true
        | target_risk_multiple ↦ true
      ]
        ≡ true
      → read_target_atr kind r index series_in ≡ ok (target_atr_of kind r index series_in)
  target_kind-known target_risk_multiple r index h v = refl
  target_kind-known target_percent r index h v = refl
  target_kind-known target_atr_multiple r index h v =
      read_series-known (referenced r) index (ref-known r (ground arith) h)

  stop_atr-known :
      (r : StopRule) (index : ℕ)
      → is_valid_stop r ≡ true
      → ref_is_known is r.indicator_ref ≡ true
      → read_stop_atr r.kind r.indicator_ref index series_in
        ≡ ok (stop_atr_of r.kind r.indicator_ref index series_in)
  unfolding is_valid_stop
  stop_atr-known r index v h = stop_kind-known r.kind r.indicator_ref index h (ground arith)

  target_atr-known :
      (r : TargetRule) (index : ℕ)
      → is_valid_target r ≡ true
      → ref_is_known is r.indicator_ref ≡ true
      → read_target_atr r.kind r.indicator_ref index series_in
        ≡ ok (target_atr_of r.kind r.indicator_ref index series_in)
  unfolding is_valid_target
  target_atr-known r index v h = target_kind-known r.kind r.indicator_ref index h (ground arith)

module _ (s : StrategySpec) (ks : List Kline) (valid : is_valid_spec s ≡ true) where
  abbrev pub computed_in : Computed
  computed_in = compute_indicators s.indicators ks

  stop_reads :
      (index : ℕ)
      → read_stop_atr s.stop_rule.kind s.stop_rule.indicator_ref index computed_in
        ≡ ok (stop_atr_of s.stop_rule.kind s.stop_rule.indicator_ref index computed_in)
  unfolding is_valid_spec references_are_valid
  stop_reads index = stop_atr-known s.indicators ks s.stop_rule index (ground arith) (ground arith)

  target_reads :
      (index : ℕ)
      → read_target_atr s.target_rule.kind s.target_rule.indicator_ref index computed_in
        ≡ ok (target_atr_of s.target_rule.kind s.target_rule.indicator_ref index computed_in)
  unfolding is_valid_spec references_are_valid
  target_reads index =
      target_atr-known s.indicators ks s.target_rule index (ground arith) (ground arith)

  with_stop-known :
      (side : PositionSide) (reference : Decimal) (index : ℕ) (stop_atr : Option Decimal)
      → with_stop s side reference index computed_in stop_atr
          (stop_price_of s.stop_rule side reference stop_atr)
        ≡ ok (
            signal_from s side reference index stop_atr
              (target_atr_of s.target_rule.kind s.target_rule.indicator_ref index computed_in))
  unfolding signal_from
  with_stop-known side reference index stop_atr =
      elim (Option-cases (stop_price_of s.stop_rule side reference stop_atr)) [
        | inl n ↦ rw n refl
        | inr (l, e) ↦ rw (e, target_reads index) (rw e refl)
      ]

  signal-known :
      (side : PositionSide) (reference : Decimal) (index : ℕ)
      → read_signal s side reference index computed_in
        ≡ ok (signal_of s side reference index computed_in)
  unfolding read_signal signal_of
  signal-known side reference index =
      let stop_atr = stop_atr_of s.stop_rule.kind s.stop_rule.indicator_ref index computed_in in
      ap
        (λ y. and_ok y λ a.
          with_stop s side reference index computed_in a
            (stop_price_of s.stop_rule side reference a))
        (stop_reads index)
      ∙ with_stop-known side reference index stop_atr

  rules-known :
      (es : List EntryRule) (reference : Decimal) (index : ℕ)
      → all (λ (e : EntryRule). all (condition_is_known s.indicators) e.conditions) es ≡ true
      → read_rules s es reference index ks computed_in
        ≡ ok (signals_at s es reference index ks computed_in)
  unfolding read_rules signals_at rule_fires
  rules-known [] reference index h = refl
  rules-known (e ∷ es) reference index h =
      let holds = conditions-known s.indicators ks e.conditions index (ground arith) in
      let rest = rules-known es reference index (ground arith) in
      elim (Bool-cases (all (λ c. evaluate_condition c index ks computed_in) e.conditions)) [
        | inl y ↦ rw (holds, y, signal-known e.side reference index, rest) refl
        | inr n ↦ rw (holds, n, rest) refl
      ]

  bars-known :
      (index : ℕ) (rest : List Kline)
      → read_bars s ks computed_in index rest ≡ ok (evaluate_from s ks computed_in index rest)
  unfolding read_bars evaluate_from is_valid_spec references_are_valid
  bars-known index [] = refl
  bars-known index (k ∷ rest) =
      rw (rules-known s.entries k.close index (ground arith), bars-known (index + 1) rest) refl

  -- Over any history, the evaluation of a valid spec that looks its series up in the code's order
  -- raises nothing and returns the signals of evaluate, while looking up a key raises KeyError exactly
  -- where no indicator of the spec has that id.
  pub evaluate_or_raise-ok :
      (r : Text)
      → (evaluate_or_raise s ks ≡ ok (evaluate s ks))
        × (look_up r computed_in
            ≡ (if is_known s.indicators r then ok (series_of r computed_in) else raised key_error))
  unfolding evaluate_or_raise evaluate
  evaluate_or_raise-ok r = (bars-known 0 ks, look_up_lem ks s.indicators r)
