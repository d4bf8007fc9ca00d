-- ===== src/Tests/Numbers.antt =====
-- Sizing, the account's limits and the selection gates on concrete numbers.
use atlas_ai_trading.Decimal.{decimal, nought, of_ℕ, one}
use atlas_ai_trading.Prelude.{false, true}
use atlas_ai_trading.Prelude.Int.{pos}
use atlas_ai_trading.Selection.{BacktestStats, SelectionThresholds}
use atlas_ai_trading.Sizing.{SizingPolicy, SizingRequest, SizingResult, no_reason}
use atlas_ai_trading.World.{long}

abbrev policy : SizingPolicy
policy = record {
  risk_pct = decimal (pos 1) 2;
  max_position_pct = decimal (pos 33) 2;
  max_deployed_pct = one;
  max_concurrent = 3;
}

-- 1 percent of 1000 at risk, at a stop 10 below an entry at 100: one unit.
abbrev request : SizingRequest
request = record {
  equity = of_ℕ 1000;
  free_cash = of_ℕ 1000;
  entry_price = of_ℕ 100;
  stop_price = of_ℕ 90;
  side = long;
  policy = policy;
  filters = record {
    step_size = decimal (pos 1) 1;
    min_qty = decimal (pos 1) 1;
    min_notional = of_ℕ 5;
    tick_size = decimal (pos 1) 2;
  };
  num_open = 0;
  deployed = nought;
  risk_multiplier = one;
}

abbrev sized : SizingResult
sized = record {
  accepted = true;
  quantity = decimal (pos 10) 1;
  notional = decimal (pos 1000) 1;
  risk_amount = decimal (pos 1000000000000000000000000000) 26;
  reason = no_reason;
  capped = false;
}

abbrev criteria : SelectionThresholds
criteria = record {
  min_trades = 100;
  max_drawdown = decimal (pos 25) 2;
  min_profit_factor = decimal (pos 130) 2;
  min_expectancy = nought;
  require_beats_buy_and_hold = true;
  min_oos_profit_factor = decimal (pos 110) 2;
  min_oos_retention = decimal (pos 70) 2;
  stop_band_low = decimal (pos 3) 2;
  stop_band_high = decimal (pos 20) 2;
}

abbrev backtest_run : BacktestStats
backtest_run = record {
  trade_count = 120;
  max_drawdown = decimal (pos 10) 2;
  profit_factor = decimal (pos 15) 1;
  expectancy = one;
  beats_buy_and_hold = true;
}
