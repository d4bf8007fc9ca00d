-- ===== src/Tests/Strategies.antt =====
-- A spec, its signals and its trades on a few candles.
use atlas_ai_trading.Backtest.{Engine, Setup, run_backtest, run_engine, setup_of}
use atlas_ai_trading.Backtest.Chronology.{Traded, run_backtest-Traded}
use atlas_ai_trading.Backtest.Costs.{CostModel}
use atlas_ai_trading.Backtest.Exits.{Trade, ExitReason, exit_target}
use atlas_ai_trading.Backtest.Stats.{worst_drawdown_of}
use atlas_ai_trading.Backtest.Stats.Drawdown.{AtMost, declines_of, worst_drawdown-bounds, worst_of}
use atlas_ai_trading.Decimal.{
  decimal, div, min_of, nought, of_ℕ, one, truncate, ◌≺◌, ◌≼◌, ◌⊕◌, ◌⊖◌, ◌⊗◌,
}
use atlas_ai_trading.Evaluator.{Signal, compute_indicators, evaluate, signal_of}
use atlas_ai_trading.Evaluator.Causality.{evaluate-prefix}
use atlas_ai_trading.Evaluator.Explanation.{evaluate-explain, has_signal_at, passes_on}
use atlas_ai_trading.Evaluator.Levels.{IsSound, evaluate-IsSound}
use atlas_ai_trading.Evaluator.Lookups.{
  decide_condition, evaluate_or_raise, look_up, read_all, read_bars, read_condition, read_operand,
  read_rules,
}
use atlas_ai_trading.Evaluator.Report.{explain}
use atlas_ai_trading.Indicators.Registry.{compute, name_sma}
use atlas_ai_trading.Market.{Kline, h1, milliseconds}
use atlas_ai_trading.Market.Validation.{validate_series}
use atlas_ai_trading.Market.Validation.Continuity.{all_follow, validate_series_lem}
use atlas_ai_trading.Prelude.{
  All, List, [], false, is_some, ltb, map, none, refl, some, true, ℕ, ◌&&◌, ◌*◌, ◌++◌, ◌+◌, ◌-◌,
  ◌∷◌, ◌≡◌, ◌≤◌, ◌⊎◌,
}
use atlas_ai_trading.Prelude.Int.{pos}
use atlas_ai_trading.Prelude.Text.{text, text_eq}
use atlas_ai_trading.Sizing.{
  ExchangeFilters, SizingPolicy, check_quantity, deployed_headroom, floor_quantity,
  intended_notional, notional_by_risk, notional_cap, size_at_distance, size_position, stop_distance,
}
use atlas_ai_trading.Spec.{
  StrategySpec, constant, cross_above, field_close, gte, indicator, is_valid_spec, price,
  stop_percent, target_risk_multiple,
}
use atlas_ai_trading.Spec.References.{evaluate_or_raise-ok}
use atlas_ai_trading.World.{Result, arithmetic_error, key_error, long, ok, raised}

-- One candle an hour, whose range is from 1 below its close to so much above it.
abbrev pub bar_of : (hour close above : ℕ) → Kline
bar_of hour close above = record {
  open_time = hour * 3600000;
  close_time = hour * 3600000 + 3599999;
  open_price = of_ℕ close;
  high = of_ℕ (close + above);
  low = of_ℕ (close - 1);
  close = of_ℕ close;
  volume = one;
  trades = 1;
}

abbrev first_bars : List Kline
first_bars = bar_of 0 90 2 ∷ bar_of 1 110 2 ∷ bar_of 2 112 2 ∷ []

abbrev last_bars : List Kline
last_bars = bar_of 3 120 40 ∷ bar_of 4 80 2 ∷ []

abbrev five_bars : List Kline
five_bars = first_bars ++ last_bars

-- A long entry when the close crosses 100 from below, with the mean of two closes in its rule.
abbrev pub breakout : StrategySpec
breakout = record {
  spec_name = text "breakout";
  symbol = text "BTCUSDT";
  timeframe = h1;
  indicators = record { id = text "mean"; indicator_name = name_sma; period = 2 } ∷ [];
  entries =
      record {
        side = long;
        conditions =
            record { left = price field_close; op = cross_above; right = constant (of_ℕ 100) }
            ∷ record { left = price field_close; op = gte; right = indicator (text "mean") }
            ∷ [];
      }
      ∷ [];
  stop_rule = record { kind = stop_percent; value = decimal (pos 1) 1; indicator_ref = none };
  target_rule = record { kind = target_risk_multiple; value = of_ℕ 2; indicator_ref = none };
  max_bars_in_trade = 10;
}

abbrev free : CostModel
free = record { fee_rate = nought; slippage_rate = nought }

evaluate_or_raise-ok_example :
    (evaluate_or_raise breakout five_bars ≡ ok (evaluate breakout five_bars))
    × (look_up (text "other") (compute_indicators breakout.indicators five_bars) ≡ raised key_error)
unfolding is_valid_spec ◌≺◌ text_eq
evaluate_or_raise-ok_example = evaluate_or_raise-ok breakout five_bars refl (text "other")

-- A spec whose rule names an indicator that it does not define.
missing_key : evaluate_or_raise (record breakout { indicators = [] }) five_bars ≡ raised key_error
unfolding evaluate_or_raise read_bars read_rules read_all read_condition read_operand
    decide_condition ◌≺◌ ◌≼◌ look_up
missing_key = refl

evaluate-prefix_example :
    (late : List Signal) × (evaluate breakout five_bars ≡ evaluate breakout first_bars ++ late)
    × All (λ (g : Signal). 3 ≤ g.bar_index) late
unfolding is_valid_spec ◌≺◌ text_eq
evaluate-prefix_example = evaluate-prefix breakout first_bars last_bars refl

evaluate-IsSound_example : All (IsSound five_bars) (evaluate breakout five_bars)
evaluate-IsSound_example = evaluate-IsSound breakout five_bars

evaluate-explain_example : has_signal_at 1 long (evaluate breakout five_bars) ≡ (
    passes_on long (explain breakout five_bars (some 1))
    && is_some
        (signal_of breakout long (of_ℕ 110) 1 (compute_indicators breakout.indicators five_bars)))
evaluate-explain_example = evaluate-explain breakout five_bars long 1 (bar_of 1 110 2) refl

signals_of_breakout : has_signal_at 1 long (evaluate breakout five_bars) ≡ true
unfolding evaluate ◌≺◌ ◌≼◌ text_eq compute div ◌⊕◌ ◌⊗◌ ◌⊖◌
signals_of_breakout = refl

validate_series_lem_example :
    (validate_series
      (record { symbol = text "BTCUSDT"; timeframe = h1; bars = five_bars })
      false).valid
    ≡ (ltb 0 5 && all_follow (milliseconds h1) false five_bars)
validate_series_lem_example =
    validate_series_lem (record { symbol = text "BTCUSDT"; timeframe = h1; bars = five_bars }) false

abbrev policy : SizingPolicy
policy = record {
  risk_pct = decimal (pos 1) 2;
  max_position_pct = one;
  max_deployed_pct = one;
  max_concurrent = 1;
}

abbrev pub filters : ExchangeFilters
filters = record {
  step_size = decimal (pos 1) 1;
  min_qty = decimal (pos 1) 1;
  min_notional = of_ℕ 5;
  tick_size = decimal (pos 1) 2;
}

run_backtest-Traded_example :
    (run_backtest breakout five_bars policy filters (of_ℕ 1000) free ≡ raised arithmetic_error)
    ⊎ ((e : Engine) × (run_backtest breakout five_bars policy filters (of_ℕ 1000) free ≡ ok e)
        × Traded (setup_of breakout five_bars policy filters free) five_bars e)
run_backtest-Traded_example = run_backtest-Traded breakout five_bars policy filters (of_ℕ 1000) free

abbrev reasons_of : Result Engine → List (ℕ × ExitReason)
reasons_of (raised x) = []
reasons_of (ok e) = map (λ (t : Trade). (t.entry_index, t.exit_reason)) e.trades

abbrev one_signal : Setup
one_signal = record {
  policy = policy;
  filters = filters;
  costs = free;
  max_bars = 10;
  signals =
      record {
        bar_index = 1;
        side = long;
        reference_price = of_ℕ 110;
        stop_price = of_ℕ 100;
        target_price = of_ℕ 130;
      }
      ∷ [];
}

-- The entry is at the open of the bar after the signal; the fourth bar reaches the target.
trades_of_signal : reasons_of (run_engine one_signal five_bars (of_ℕ 1000)) ≡ (2, exit_target) ∷ []
unfolding run_engine size_position stop_distance size_at_distance notional_by_risk notional_cap
    deployed_headroom intended_notional check_quantity floor_quantity div ◌⊗◌ ◌⊖◌ ◌⊕◌ ◌≺◌ ◌≼◌ min_of
    truncate
trades_of_signal = refl

worst_drawdown-bounds_example :
    ((nought ≼ worst_drawdown_of (of_ℕ 10 ∷ of_ℕ 8 ∷ [])) ≡ true)
    × All (AtMost (worst_drawdown_of (of_ℕ 10 ∷ of_ℕ 8 ∷ []))) (declines_of (of_ℕ 10 ∷ of_ℕ 8 ∷ []))
    × (worst_drawdown_of (of_ℕ 10 ∷ of_ℕ 8 ∷ [])
        ≡ worst_of nought (declines_of (of_ℕ 10 ∷ of_ℕ 8 ∷ [])))
worst_drawdown-bounds_example = worst_drawdown-bounds (of_ℕ 10 ∷ of_ℕ 8 ∷ [])
