-- ===== src/Tests/Entering.antt =====
-- A tick that enters a position, on a concrete state.
use mathlib.Core.Path.{subst}
use mathlib.Core.Option.{some-injective}
use atlas_ai_trading.Brackets.{
  client_order_id, enter, entry_request, fill_price, levels_of, oco_request,
  open_bracketed_position, protect, stop_request, target_request,
}
use atlas_ai_trading.Broker.{ack_of, gate, parse_oco, place, place_oco, post, report_of}
use atlas_ai_trading.Decimal.{div, max_of, min_of, of_ℕ, truncate, ◌≺◌, ◌≼◌, ◌⊖◌, ◌⊗◌}
use atlas_ai_trading.Evaluator.{evaluate}
use atlas_ai_trading.Indicators.Registry.{compute}
use atlas_ai_trading.KillSwitch.{is_armed, is_valid_record}
use atlas_ai_trading.Ledger.{
  insert_order, link_order_to_position, open_position, order_row, record_order, update_order_status,
}
use atlas_ai_trading.Limits.{
  can_open_symbol, check_portfolio_limits, daily_loss, drawdown_from_peak, loss_from,
}
use atlas_ai_trading.Market.{h1, milliseconds}
use atlas_ai_trading.Market.Validation.{is_stale, validate_series}
use atlas_ai_trading.Prelude.{[], refl, some, ◌∷◌, ◌≡◌}
use atlas_ai_trading.Prelude.Text.{Text, show_ℕ, text, text_eq, upper}
use atlas_ai_trading.Promotion.{risk_multiplier_for}
use atlas_ai_trading.Reconcile.{local_open_orders, reconcile, reconcile_loop, remote_of, unrecorded}
use atlas_ai_trading.Regime.{classify_regime}
use atlas_ai_trading.Registry.{list_by_status}
use atlas_ai_trading.Sizing.{
  check_quantity, deployed_headroom, floor_quantity, intended_notional, notional_by_risk,
  notional_cap, round_price_toward, size_at_distance, size_position, stop_distance,
}
use atlas_ai_trading.Spec.{StrategySpec}
use atlas_ai_trading.Tests.Exchanges.{protecting_world}
use atlas_ai_trading.Tests.Fixtures.{strategy_in}
use atlas_ai_trading.Tests.Strategies.{bar_of, breakout, filters}
use atlas_ai_trading.Tests.Ticks.{inputs, outcomes_of, service}
use atlas_ai_trading.Trading.{
  Inputs, Service, TickResult, configured_in, fill_remaining, log_tick, record_decisions,
  series_for, supervise_all,
}
use atlas_ai_trading.Trading.Entries.{consider_each}
use atlas_ai_trading.Trading.Tick.{live_strategies_by_symbol, start_result, tick, universe_of}
use atlas_ai_trading.Trading.Tick.Single.{IsSingle, IsUpper, tick-IsSingle}
use atlas_ai_trading.Trading.Tick.Counts.{tick-IsCounted}
use atlas_ai_trading.Trading.Steps.Tally.{IsCounted}
use atlas_ai_trading.World.{Result, World, entered, live_status, ok, position_already_open, raised}

-- The strategy of the state has the breakout as its spec, and its filters can be read.
abbrev trading_service : Service
trading_service = record service {
  specs = λ spec_hash. some breakout;
  filters_for = λ symbol. ok filters;
  moment = λ at. text "t0";
}

-- The last bar crosses the level of the breakout.
abbrev crossing : Inputs
crossing = record inputs {
  account = record inputs.account {
    equity = of_ℕ 10000;
    peak_equity = of_ℕ 10000;
    day_start_equity = of_ℕ 10000;
    free_cash = of_ℕ 10000;
  };
  series_by_symbol =
      (
        text "BTCUSDT",
        record {
          symbol = text "BTCUSDT";
          timeframe = h1;
          bars = bar_of 0 90 2 ∷ bar_of 1 110 2 ∷ [];
        },
      )
      ∷ [];
}

-- Two live strategies with the breakout.
abbrev two_strategies : World
two_strategies = record protecting_world {
  strategies = strategy_in live_status ∷ record (strategy_in live_status) { id = 8 } ∷ [];
}

abbrev entering_tick : Result TickResult × World
entering_tick = tick trading_service crossing two_strategies

abbrev result_of : Result TickResult → TickResult
result_of (ok r) = r
result_of (raised e) = start_result 0

-- The first of them enters the position, which the second finds open.
enters :
    outcomes_of entering_tick.0
    ≡ (text "BTCUSDT", entered) ∷ (text "BTCUSDT", position_already_open) ∷ []
unfolding tick reconcile unrecorded remote_of check_portfolio_limits drawdown_from_peak loss_from
    ◌≼◌ div max_of ◌≺◌ ◌⊖◌ daily_loss is_armed is_valid_record universe_of configured_in
    live_strategies_by_symbol list_by_status text_eq upper consider_each record_decisions
    fill_remaining series_for supervise_all log_tick classify_regime validate_series milliseconds
    is_stale can_open_symbol evaluate compute ◌⊗◌ size_position stop_distance size_at_distance
    notional_by_risk deployed_headroom floor_quantity check_quantity truncate intended_notional
    min_of notional_cap risk_multiplier_for open_bracketed_position enter record_order order_row
    reconcile_loop local_open_orders insert_order place gate entry_request post update_order_status
    ack_of levels_of round_price_toward fill_price open_position link_order_to_position protect
    client_order_id show_ℕ stop_request target_request place_oco parse_oco report_of oco_request
enters = refl

entering_ticks : entering_tick.0 ≡ ok (result_of entering_tick.0)
unfolding tick reconcile unrecorded remote_of check_portfolio_limits drawdown_from_peak loss_from
    ◌≼◌ div max_of ◌≺◌ ◌⊖◌ daily_loss is_armed is_valid_record universe_of configured_in
    live_strategies_by_symbol list_by_status text_eq upper consider_each record_decisions
    fill_remaining series_for supervise_all log_tick classify_regime validate_series milliseconds
    is_stale can_open_symbol evaluate compute ◌⊗◌ size_position stop_distance size_at_distance
    notional_by_risk deployed_headroom floor_quantity check_quantity truncate intended_notional
    min_of notional_cap risk_multiplier_for open_bracketed_position enter record_order order_row
    reconcile_loop local_open_orders insert_order place gate entry_request post update_order_status
    ack_of levels_of round_price_toward fill_price open_position link_order_to_position protect
    client_order_id show_ℕ stop_request target_request place_oco parse_oco report_of oco_request
entering_ticks = refl

breakout-IsUpper :
    (spec_hash : Text) (s : StrategySpec)
    → trading_service.specs spec_hash ≡ some s
    → IsUpper s.symbol
unfolding upper
breakout-IsUpper spec_hash s h =
    subst (λ (x : StrategySpec). IsUpper x.symbol) (some-injective breakout s h) refl

tick-IsSingle_example : IsSingle crossing.account (result_of entering_tick.0)
tick-IsSingle_example =
    tick-IsSingle trading_service crossing breakout-IsUpper two_strategies
      (result_of entering_tick.0) entering_ticks

tick-IsCounted_example : IsCounted (result_of entering_tick.0)
tick-IsCounted_example =
    tick-IsCounted trading_service crossing two_strategies (result_of entering_tick.0)
      entering_ticks
