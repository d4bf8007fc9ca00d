-- ===== src/Evaluator/Explanation.antt =====
-- `explain` against `evaluate`, both of src/atlas/strategy/evaluator.py.
use mathlib.Core.Option.{some-injective}
use mathlib.Core.Bool.{and-false, or-false}
use atlas_ai_trading.Decimal.{Decimal}
use atlas_ai_trading.Evaluator.{
  Computed, Signal, compute_indicators, cons_some, evaluate, evaluate_condition, evaluate_from,
  rule_fires, signal_from, signal_of, signals_at,
}
use atlas_ai_trading.Evaluator.Causality.{evaluate_from-IsLate}
use atlas_ai_trading.Evaluator.Levels.{signal_of-bar_index, signals_at-All}
use atlas_ai_trading.Evaluator.Report.{
  ConditionResult, RuleResult, explain, explain_condition, explain_rule, rule_passed,
}
use atlas_ai_trading.Market.{Kline}
use atlas_ai_trading.Prelude.{
  All, Bool, List, Option, Option-cases, [], all, any, any-append, arith, false, get_elem?,
  if◌then◌else◌, inl, inr, is_some, map, none, refl, some, suc, true, zero, ℕ, ◌&&◌, ◌++◌, ◌+◌, ◌<◌,
  ◌==◌, ◌||◌, ◌∙◌, ◌∷◌, ◌≡◌, ◌≤◌,
}
use atlas_ai_trading.Spec.{Condition, EntryRule, StrategySpec, same_side}
use atlas_ai_trading.World.{PositionSide, long, short}

conditions_passed :
    (qs : List Condition) (i : ℕ) (ks : List Kline) (c : Computed)
    → all (λ (r : ConditionResult). r.has_passed) (map (explain_condition i ks c) qs)
      ≡ all (λ q. evaluate_condition q i ks c) qs
unfolding explain_condition
conditions_passed [] i ks c = refl
conditions_passed (q ∷ qs) i ks c = rw (conditions_passed qs i ks c) refl

-- A rule is explained as passed exactly where it fires.
explain_rule_passed :
    (e : EntryRule) (i : ℕ) (ks : List Kline) (c : Computed)
    → rule_passed (explain_rule i ks c e) ≡ rule_fires e i ks c
unfolding explain_rule rule_fires
explain_rule_passed e i ks c = conditions_passed e.conditions i ks c

-- A passed rule of one side among the explanations.
abbrev pub passes_on : PositionSide → List RuleResult → Bool
passes_on side = any (λ (r : RuleResult). same_side r.side side && rule_passed r)

-- A rule of the side fires, and its levels make a signal.
abbrev has_signal_on : PositionSide → List Signal → Bool
has_signal_on side = any (λ (g : Signal). same_side g.side side)

signal_of-side :
    (s : StrategySpec) (side : PositionSide) (reference : Decimal) (i : ℕ) (c : Computed)
    (g : Signal)
    → signal_of s side reference i c ≡ some g
    → g.side ≡ side
unfolding signal_of signal_from
signal_of-side s side reference i c g h = ground arith

abbrev has_levels : StrategySpec → PositionSide → Decimal → ℕ → Computed → Bool
has_levels s side reference i c = is_some (signal_of s side reference i c)

explained_none :
    (t side : PositionSide) (pass : Bool) (o : PositionSide → Option Signal) (gs : List Signal)
    → o t ≡ none
    → has_signal_on side gs ≡ (pass && is_some (o side))
    → has_signal_on side (cons_some (o t) gs)
      ≡ ((same_side t side && true || pass) && is_some (o side))
explained_none long long pass o gs n h = rw n (ground arith)
explained_none short short pass o gs n h = rw n (ground arith)
explained_none long short pass o gs n h = rw n (ground arith)
explained_none short long pass o gs n h = rw n (ground arith)

explained_some :
    (t side : PositionSide) (pass : Bool) (o : PositionSide → Option Signal) (gs : List Signal)
    (g : Signal)
    → o t ≡ some g
    → g.side ≡ t
    → has_signal_on side gs ≡ (pass && is_some (o side))
    → has_signal_on side (cons_some (o t) gs)
      ≡ ((same_side t side && true || pass) && is_some (o side))
explained_some long long pass o gs g q e h = rw (q, e) (ground arith)
explained_some short short pass o gs g q e h = rw (q, e) (ground arith)
explained_some long short pass o gs g q e h = rw (q, e) (ground arith)
explained_some short long pass o gs g q e h = rw (q, e) (ground arith)

explained_step :
    (t side : PositionSide) (fires pass : Bool) (o : PositionSide → Option Signal)
    (gs : List Signal)
    → ((g : Signal) → o t ≡ some g → g.side ≡ t)
    → has_signal_on side gs ≡ (pass && is_some (o side))
    → has_signal_on side (cons_some (if fires then o t else none) gs)
      ≡ ((same_side t side && fires || pass) && is_some (o side))
explained_step t side false pass o gs sound h = rw (and-false (same_side t side)) h
explained_step t side true pass o gs sound h = elim (Option-cases (o t)) [
  | inl n ↦ explained_none t side pass o gs n h
  | inr (g, q) ↦ explained_some t side pass o gs g q (sound g q) h
]

-- On one bar: there is a signal on a side exactly where a rule of the side is explained as passed and
-- the levels of the side are in order.
signals_at-explained :
    (s : StrategySpec) (es : List EntryRule) (side : PositionSide) (reference : Decimal) (i : ℕ)
    (ks : List Kline) (c : Computed)
    → has_signal_on side (signals_at s es reference i ks c)
      ≡ (passes_on side (map (explain_rule i ks c) es) && has_levels s side reference i c)
unfolding signals_at explain_rule
signals_at-explained s [] side reference i ks c = refl
signals_at-explained s (e ∷ es) side reference i ks c = rw (explain_rule_passed e i ks c) (
    explained_step e.side side (rule_fires e i ks c) (passes_on side (map (explain_rule i ks c) es))
      (λ t. signal_of s t reference i c) (signals_at s es reference i ks c)
      (λ g q. signal_of-side s e.side reference i c g q)
      (signals_at-explained s es side reference i ks c))

-- A signal on a bar and a side.
abbrev pub has_signal_at : ℕ → PositionSide → List Signal → Bool
has_signal_at i side = any (λ (g : Signal). g.bar_index == i && same_side g.side side)

signals_of_bar :
    (i : ℕ) (side : PositionSide) (gs : List Signal)
    → All (λ (g : Signal). g.bar_index ≡ i) gs
    → has_signal_at i side gs ≡ has_signal_on side gs
signals_of_bar i side [] h = refl
signals_of_bar i side (g ∷ gs) h = ground (arith, signals_of_bar i side gs h.1)

signals_of_other_bar :
    (i j : ℕ) (side : PositionSide) (gs : List Signal)
    → i < j
    → All (λ (g : Signal). j ≤ g.bar_index) gs
    → has_signal_at i side gs ≡ false
signals_of_other_bar i j side [] b h = refl
signals_of_other_bar i j side (g ∷ gs) b h = ground (arith, signals_of_other_bar i j side gs b h.1)

signals_of_earlier_bar :
    (i j : ℕ) (side : PositionSide) (gs : List Signal)
    → j < i
    → All (λ (g : Signal). g.bar_index ≡ j) gs
    → has_signal_at i side gs ≡ false
signals_of_earlier_bar i j side [] b h = refl
signals_of_earlier_bar i j side (g ∷ gs) b h =
    ground (arith, signals_of_earlier_bar i j side gs b h.1)

module _ (s : StrategySpec) (ks : List Kline) (c : Computed) (side : PositionSide) where
  signals_at-IsAt :
      (l : Kline) (i : ℕ)
      → All (λ (g : Signal). g.bar_index ≡ i) (signals_at s s.entries l.close i ks c)
  signals_at-IsAt l i =
      signals_at-All (λ (g : Signal). g.bar_index ≡ i) s s.entries l.close i ks c
        λ t g q. signal_of-bar_index s t l.close i c g q

  bar-explained :
      (rest : List Kline) (i : ℕ) (l : Kline)
      → has_signal_at i side
          (signals_at s s.entries l.close i ks c ++ evaluate_from s ks c (i + 1) rest)
        ≡ (passes_on side (map (explain_rule i ks c) s.entries) && has_levels s side l.close i c)
  bar-explained rest i l =
      let here = signals_at s s.entries l.close i ks c in
      let late = evaluate_from s ks c (i + 1) rest in
      any-append (λ (g : Signal). g.bar_index == i && same_side g.side side) here late
      ∙ rw
          (
            signals_of_bar i side here (signals_at-IsAt l i),
            signals_of_other_bar i (i + 1) side late (omega arith)
                (evaluate_from-IsLate s ks c (i + 1) (i + 1) rest (omega arith)),
            signals_at-explained s s.entries side l.close i ks c,
          )
          (or-false _)

  bar-skipped :
      (rest : List Kline) (i j : ℕ) (l : Kline)
      → i < j
      → has_signal_at j side
          (signals_at s s.entries l.close i ks c ++ evaluate_from s ks c (i + 1) rest)
        ≡ has_signal_at j side (evaluate_from s ks c (i + 1) rest)
  bar-skipped rest i j l b =
      let here = signals_at s s.entries l.close i ks c in
      any-append (λ (g : Signal). g.bar_index == j && same_side g.side side) here
        (evaluate_from s ks c (i + 1) rest)
      ∙ rw (signals_of_earlier_bar j i side here b (signals_at-IsAt l i)) refl

  evaluate_from-explained :
      (rest : List Kline) (i j : ℕ) (k : Kline)
      → get_elem? rest j ≡ some k
      → has_signal_at (i + j) side (evaluate_from s ks c i rest) ≡ (
          passes_on side (map (explain_rule (i + j) ks c) s.entries)
          && has_levels s side k.close (i + j) c)
  unfolding evaluate_from
  evaluate_from-explained [] i j k e = absurd cc
  evaluate_from-explained (l ∷ rest) i zero k e =
      let e' : i + 0 ≡ i = omega arith in
      let same : l ≡ k = some-injective l k e in rw (e', ← same) (bar-explained rest i l)
  evaluate_from-explained (l ∷ rest) i (suc j) k e =
      let e' : i + suc j ≡ i + 1 + j = omega arith in
      rw e' (
        bar-skipped rest i (i + 1 + j) l (omega arith) ∙ evaluate_from-explained rest (i + 1) j k e)

-- At a bar of a history, `evaluate` has a signal on a side exactly where `explain` shows a passed rule
-- of the side and its stop and target make a signal.
pub evaluate-explain :
    (s : StrategySpec) (ks : List Kline) (side : PositionSide) (i : ℕ) (k : Kline)
    → get_elem? ks i ≡ some k
    → has_signal_at i side (evaluate s ks) ≡ (
        passes_on side (explain s ks (some i))
        && is_some (signal_of s side k.close i (compute_indicators s.indicators ks)))
unfolding evaluate explain
evaluate-explain s [] side i k e = absurd cc
evaluate-explain s (l ∷ ks) side i k e =
    let from_start =
      evaluate_from-explained s (l ∷ ks) (compute_indicators s.indicators (l ∷ ks)) side (l ∷ ks) 0
        i k e in
    let e' : 0 + i ≡ i = omega arith in rw e' at from_start
