-- ===== src/Tests/Ticks.antt =====
-- Ticks, incubation and statistics on concrete states.
use atlas_ai_trading.Backtest.Exits.{OpenPosition}
use atlas_ai_trading.Decimal.{Decimal, decimal, div, max_of, nought, of_ℕ, one, ◌≺◌, ◌≼◌, ◌⊖◌, ◌⊗◌}
use atlas_ai_trading.Evaluator.{Signal}
use atlas_ai_trading.Incubation.{
  IncubationRun, IncubationSignal, PaperOutcome, Tracker, begin, elapsed_days, paper_loss,
  paper_open, paper_win, resolve_entry, run_for,
}
use atlas_ai_trading.Incubation.Divergence.{IncubationThresholds, check_divergence}
use atlas_ai_trading.Incubation.Divergence.Eligibility.{
  check_divergence_lem, paper_drawdown, paper_factor,
}
use atlas_ai_trading.Incubation.Resolution.{as_resolved, first_exit, resolve_entry-first_exit}
use atlas_ai_trading.Incubation.Start.{begin_all, run_for-begin}
use atlas_ai_trading.KillSwitch.{is_armed, is_valid_record}
use atlas_ai_trading.Limits.{
  AccountState, check_portfolio_limits, daily_loss, default_limits, drawdown_from_peak, loss_from,
}
use atlas_ai_trading.Market.{Kline}
use atlas_ai_trading.Prelude.{
  List, Option, [], drop, false, inl, ltb, map, none, not, refl, some, true, ℕ, ◌&&◌, ◌*◌, ◌+◌, ◌-◌,
  ◌/◌, ◌∷◌, ◌≡◌,
}
use atlas_ai_trading.Prelude.Int.{negsuc, pos}
use atlas_ai_trading.Prelude.Text.{Text, text, text_eq, upper}
use atlas_ai_trading.Reconcile.{reconcile, remote_of, unrecorded}
use atlas_ai_trading.Registry.{list_by_status}
use atlas_ai_trading.Tests.Fixtures.{calm, halted_world, operator}
use atlas_ai_trading.Trading.{
  Inputs, Service, TickResult, configured_in, fill_remaining, log_tick, record_decisions,
  series_for, supervise_all,
}
use atlas_ai_trading.Trading.Decisions.{SymbolDecision, bare_decision}
use atlas_ai_trading.Trading.Entries.{consider_each}
use atlas_ai_trading.Trading.Exposure.{exposure}
use atlas_ai_trading.Trading.Tick.{live_strategies_by_symbol, tick, universe_of}
use atlas_ai_trading.Trading.Tick.Coverage.{Covers, tick-Covers}
use atlas_ai_trading.Trading.Tick.Silence.{MayNotEnter, tick-exposure}
use atlas_ai_trading.World.{
  DecisionOutcome, Result, World, exchange_info_error, long, no_strategy, ok, raised, spec_missing,
  testnet,
}

abbrev account : AccountState
account = record {
  equity = of_ℕ 100;
  peak_equity = of_ℕ 100;
  day_start_equity = of_ℕ 100;
  free_cash = of_ℕ 100;
  deployed = nought;
  open_symbols = [];
  valuation_complete = true;
  unpriced_symbols = [];
}

abbrev pub service : Service
service = record {
  exchange_env = testnet;
  policy = record {
    risk_pct = decimal (pos 1) 2;
    max_position_pct = one;
    max_deployed_pct = one;
    max_concurrent = 1;
  };
  limits = default_limits;
  filters_for = λ symbol. raised exchange_info_error;
  hexdigest = λ s. s;
  specs = λ spec_hash. none;
  monitor = record {
    window = 30;
    band_sigma = of_ℕ 2;
    win_rate_retention = decimal (pos 60) 2;
    min_profit_factor = one;
    max_consecutive_losses = 8;
    starvation_multiple = of_ℕ 3;
  };
  promotion = record {
    max_correlation = decimal (pos 70) 2;
    initial_risk_multiplier = decimal (pos 50) 2;
    reduced_risk_trades = 20;
  };
  breach_text = λ trigger a. text "limit";
  stale_text = λ symbol age. text "stale";
  halt_text = λ symbol. text "stale";
  verdict_text = λ verdict. text "fired";
  moment = λ at. text "time";
}

abbrev pub inputs : Inputs
inputs = record {
  account = account;
  series_by_symbol = [];
  exchange_orders = [];
  live_returns = λ i. [];
  backtest_stats = λ i. none;
  symbols = some (text "btcusdt" ∷ []);
  now = none;
}

abbrev after_tick : Result TickResult × World
after_tick = tick service inputs calm

-- Strategy 7 is live, its spec cannot be read, and nothing is deployed for the configured symbol.
abbrev pub outcomes_of : Result TickResult → List (Text × DecisionOutcome)
outcomes_of (raised e) = []
outcomes_of (ok r) = map (λ (d : SymbolDecision). (d.symbol, d.outcome)) r.decisions

outcomes_of_tick :
    outcomes_of after_tick.0 ≡ (text "BTCUSDT", no_strategy) ∷ (text "UNKNOWN", spec_missing) ∷ []
unfolding tick reconcile unrecorded remote_of check_portfolio_limits drawdown_from_peak loss_from
    ◌≼◌ div max_of ◌≺◌ ◌⊖◌ daily_loss is_armed is_valid_record universe_of configured_in
    live_strategies_by_symbol list_by_status text_eq upper consider_each record_decisions
    fill_remaining series_for supervise_all log_tick
outcomes_of_tick = refl

abbrev calm_result : TickResult
calm_result = record {
  at = 10;
  halted = false;
  halt_reason = [];
  entries_placed = 0;
  entries_rejected = 0;
  is_suspended = false;
  retired = [];
  decisions =
      bare_decision (text "BTCUSDT") no_strategy
      ∷ record (bare_decision (text "UNKNOWN") spec_missing) { strategy_id = some 7 }
      ∷ [];
}

calm_ticks : (tick service inputs calm).0 ≡ ok calm_result
unfolding tick reconcile unrecorded remote_of check_portfolio_limits drawdown_from_peak loss_from
    ◌≼◌ div max_of ◌≺◌ ◌⊖◌ daily_loss is_armed is_valid_record universe_of configured_in
    live_strategies_by_symbol list_by_status text_eq upper consider_each record_decisions
    fill_remaining series_for supervise_all log_tick
calm_ticks = refl

tick-Covers_example : Covers (configured_in inputs) calm_result
tick-Covers_example = tick-Covers service inputs calm calm_result calm_ticks

halted_at_start : MayNotEnter service inputs halted_world
unfolding is_armed is_valid_record
halted_at_start = inl refl

tick-exposure_example : exposure (tick service inputs halted_world).1 ≡ exposure halted_world
tick-exposure_example = tick-exposure service inputs halted_world halted_at_start

-- A candle an hour from the ninth hour on.
abbrev candle : (hour low close high : ℕ) → Kline
candle hour low close high = record {
  open_time = hour * 3600000;
  close_time = hour * 3600000 + 3599999;
  open_price = of_ℕ close;
  high = of_ℕ high;
  low = of_ℕ low;
  close = of_ℕ close;
  volume = one;
  trades = 1;
}

abbrev candles : List Kline
candles = candle 0 99 100 101 ∷ candle 1 95 100 105 ∷ candle 2 89 100 121 ∷ []

abbrev held : OpenPosition
held = record {
  entry_index = 0;
  side = long;
  quantity = one;
  entry_price = of_ℕ 100;
  stop_price = of_ℕ 90;
  target_price = of_ℕ 120;
  entry_fee = nought;
  was_capped = false;
}

abbrev paper_signal : Signal
paper_signal = record {
  bar_index = 0;
  side = long;
  reference_price = of_ℕ 100;
  stop_price = of_ℕ 90;
  target_price = of_ℕ 120;
}

-- The third candle touches both levels.
stop_comes_first :
    resolve_entry candles 0 (candle 0 99 100 101) paper_signal 10
    ≡ record { at = some (2 * 3600000 + 3599999); exit = some (of_ℕ 90); outcome = paper_loss }
unfolding resolve_entry ◌≼◌
stop_comes_first = refl

resolve_entry-first_exit_example :
    resolve_entry candles 0 (candle 0 99 100 101) paper_signal 10
    ≡ as_resolved long (of_ℕ 100) (first_exit held 10 1 (drop 1 candles))
resolve_entry-first_exit_example =
    resolve_entry-first_exit held paper_signal candles (candle 0 99 100 101) 10

abbrev first_start : IncubationRun
first_start = record {
  strategy_id = 7;
  spec_hash = text "abc";
  config_hash = text "def";
  started_at = 5;
  started_by = operator;
}

abbrev untracked : Tracker
untracked = record { known = 7 ∷ []; runs = []; paper_trades = []; next_id = 0 }

abbrev tracked_later : Tracker
tracked_later =
    begin_all (record first_start { started_at = 1 } ∷ []) (begin first_start untracked).1

run_for-begin_example :
    (x : IncubationRun) × ((begin first_start untracked).0 ≡ ok x)
    × (run_for 7 tracked_later ≡ some x)
    × (elapsed_days 7 864000005 tracked_later ≡ (864000005 - x.started_at) / 86400000)
run_for-begin_example =
    run_for-begin first_start (record first_start { started_at = 1 } ∷ []) untracked 864000005 refl

abbrev incubation_thresholds : IncubationThresholds
incubation_thresholds = record {
  min_days = 60;
  min_closed = 30;
  min_profit_factor_retention = decimal (pos 70) 2;
  max_drawdown_multiple = decimal (pos 15) 1;
}

abbrev paper_row : PaperOutcome → Option Decimal → IncubationSignal
paper_row paper_outcome return_pct = record {
  id = 1;
  strategy_id = 7;
  signal_at = 0;
  side = long;
  entry_price = of_ℕ 100;
  stop_price = of_ℕ 90;
  target_price = of_ℕ 120;
  exit_at = none;
  exit_price = none;
  paper_outcome = paper_outcome;
  return_pct = return_pct;
}

-- A win of a fifth, a loss of a tenth, and a trade that is still open.
abbrev paper_rows : List IncubationSignal
paper_rows =
    paper_row paper_win (some (decimal (pos 2) 1))
    ∷ paper_row paper_loss (some (decimal (negsuc 0) 1))
    ∷ paper_row paper_open none
    ∷ []

check_divergence_lem_example :
    let rs = decimal (pos 2) 1 ∷ decimal (negsuc 0) 1 ∷ [] in
    (check_divergence paper_rows one one 90 incubation_thresholds).is_eligible ≡ (
      not (ltb 90 60)
      && not (ltb 2 30)
      && not (paper_factor rs ≺ one ⊗ decimal (pos 70) 2)
      && not ((nought ≺ one) && (one ⊗ decimal (pos 15) 1 ≺ paper_drawdown rs)))
check_divergence_lem_example = check_divergence_lem paper_rows one one 90 incubation_thresholds
