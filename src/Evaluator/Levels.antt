-- ===== src/Evaluator/Levels.antt =====
-- What holds of every signal.
use mathlib.Core.List.{append_assoc}
use atlas_ai_trading.Decimal.{Decimal, nought, ◌≼◌}
use atlas_ai_trading.Evaluator.{
  Computed, Signal, compute_indicators, evaluate, evaluate_from, levels_in_order, price_in,
  rule_fires, signal_from, signal_of, signals_at, stop_price_of, target_price_of,
}
use atlas_ai_trading.Market.{Kline}
use atlas_ai_trading.Prelude.{
  All, All-append, Bool-cases, List, Option-cases, [], arith, false, get_elem?, inl, inr, length,
  length-append, refl, some, sym, true, ℕ, ◌++◌, ◌+◌, ◌<◌, ◌∙◌, ◌∷◌, ◌≡◌,
}
use atlas_ai_trading.Prelude.Slices.{get_elem?-middle}
use atlas_ai_trading.Spec.{EntryRule, StrategySpec, field_close}
use atlas_ai_trading.World.{PositionSide}

-- What holds of the signals of all rules on a bar holds of the signals on it.
pub signals_at-All {κ} :
    (P : Signal → Type κ) (s : StrategySpec) (es : List EntryRule) (reference : Decimal) (i : ℕ)
    (ks : List Kline) (c : Computed)
    → ((side : PositionSide) (g : Signal) → signal_of s side reference i c ≡ some g → P g)
    → All P (signals_at s es reference i ks c)
unfolding signals_at
signals_at-All P s [] reference i ks c h = tt
signals_at-All P s (e ∷ es) reference i ks c h =
    let rest = signals_at-All P s es reference i ks c h in
    elim (Bool-cases (rule_fires e i ks c)) [
      | inl y ↦ rw y (elim (Option-cases (signal_of s e.side reference i c)) [
        | inl n ↦ rw n rest
        | inr (g, q) ↦ rw q (h e.side g q, rest)
      ])
      | inr n ↦ rw n rest
    ]

-- A signal on a bar of a history: it refers to the close of the bar, and its levels are positive and
-- stand on their sides of it.
pub record IsSound (ks : List Kline) (g : Signal) : Type 0 where
  pub in_range : g.bar_index < length ks
  pub at_close : price_in field_close (get_elem? ks g.bar_index) ≡ some g.reference_price
  pub ordered : levels_in_order g.side g.stop_price g.reference_price g.target_price ≡ true
  pub stop_positive : (g.stop_price ≼ nought) ≡ false
  pub target_positive : (g.target_price ≼ nought) ≡ false

pub signal_of-bar_index :
    (s : StrategySpec) (side : PositionSide) (reference : Decimal) (i : ℕ) (c : Computed)
    (g : Signal)
    → signal_of s side reference i c ≡ some g
    → g.bar_index ≡ i
unfolding signal_of signal_from
signal_of-bar_index s side reference i c g h = ground arith

signal_of-reference_price :
    (s : StrategySpec) (side : PositionSide) (reference : Decimal) (i : ℕ) (c : Computed)
    (g : Signal)
    → signal_of s side reference i c ≡ some g
    → g.reference_price ≡ reference
unfolding signal_of signal_from
signal_of-reference_price s side reference i c g h = ground arith

signal_of-IsSound :
    (s : StrategySpec) (side : PositionSide) (reference : Decimal) (i : ℕ) (c : Computed)
    (ks : List Kline) (g : Signal)
    → i < length ks
    → price_in field_close (get_elem? ks i) ≡ some reference
    → signal_of s side reference i c ≡ some g
    → IsSound ks g
unfolding signal_of signal_from stop_price_of target_price_of
signal_of-IsSound s side reference i c ks g b p h = record {
  in_range = rw (signal_of-bar_index s side reference i c g h) b;
  at_close =
      rw
        (
          signal_of-bar_index s side reference i c g h,
          signal_of-reference_price s side reference i c g h,
        )
        p;
  ordered = ground arith;
  stop_positive = ground arith;
  target_positive = ground arith;
}

evaluate_from-IsSound :
    (s : StrategySpec) (ks before rest : List Kline) (c : Computed) (i : ℕ)
    → i ≡ length before
    → ks ≡ before ++ rest
    → All (IsSound ks) (evaluate_from s ks c i rest)
unfolding evaluate_from
evaluate_from-IsSound s ks before [] c i n e = tt
evaluate_from-IsSound s ks before (k ∷ rest) c i n e =
    All-append (IsSound ks) (signals_at s s.entries k.close i ks c)
      (evaluate_from s ks c (i + 1) rest)
      (signals_at-All (IsSound ks) s s.entries k.close i ks c λ side g q.
        signal_of-IsSound s side k.close i c ks g
          (rw e (omega (arith, length-append before (k ∷ rest))))
          (rw (e, n, get_elem?-middle before rest k) refl) q)
      (evaluate_from-IsSound s ks (before ++ k ∷ []) rest c (i + 1)
        (omega (arith, length-append before (k ∷ [])))
        (e ∙ sym (append_assoc before (k ∷ []) rest)))

-- Every signal is sound, for any spec and history.
pub evaluate-IsSound : (s : StrategySpec) (ks : List Kline) → All (IsSound ks) (evaluate s ks)
unfolding evaluate
evaluate-IsSound s ks =
    evaluate_from-IsSound s ks [] ks (compute_indicators s.indicators ks) 0 refl refl
