-- ===== src/Trading/Entries.antt =====
-- src/atlas/runtime/trading_service.py, `TradingService.tick`: what one live strategy leads to.
pub mod Kept
use atlas_ai_trading.Brackets.{attempt, open_bracketed_position}
use atlas_ai_trading.Decimal.{Decimal}
use atlas_ai_trading.Evaluator.{Signal, evaluate}
use atlas_ai_trading.Evaluator.Report.{explain}
use atlas_ai_trading.KillSwitch.{arm}
use atlas_ai_trading.Limits.{can_open_symbol}
use atlas_ai_trading.Market.{Kline, KlineSeries}
use atlas_ai_trading.Market.Validation.{age_of, is_stale, validate_series}
use atlas_ai_trading.Prelude.{
  List, Option, [], any, false, find, if◌then◌else◌, last, length, none, not, some, true, ℕ, ◌-◌,
  ◌==◌, ◌||◌, ◌∷◌,
}
use atlas_ai_trading.Prelude.Text.{Text, text_eq}
use atlas_ai_trading.Promotion.{risk_multiplier_for}
use atlas_ai_trading.Regime.{MarketRegime, classify_regime, default_regime_thresholds}
use atlas_ai_trading.Sizing.{
  ExchangeFilters, RejectReason, SizingResult, filters_unavailable, size_position,
}
use atlas_ai_trading.Spec.{StrategySpec}
use atlas_ai_trading.Trading.{Inputs, Service, series_for, trading_actor}
use atlas_ai_trading.Trading.Decisions.{SymbolDecision, bare_decision}
use atlas_ai_trading.Trading.Steps.{
  Loop, Step, after_submit, bracket_for, concluded, continue_with, goes_on, halting, is_atlas_or_os,
  of_result, reason_name, refused_for, rejecting, request_for, seen_in, stops, with_decision,
}
use atlas_ai_trading.World.{
  Action, Result, arithmetic_error, data_invalid, data_stale, data_staleness, declined,
  filters_not_available, gets, log, no_market_data, no_signal, ok, or_raise, position_already_open,
  pure, raise, raised, risk_rejected, risk_rejection, spec_missing, ◌>>=◌, ◌>>◌,
}

module _ (v : Service) (t : Inputs) (reference : ℕ) where
  unfoldable pub submit :
      SymbolDecision
      → ℕ
      → StrategySpec
      → Kline
      → Signal
      → SizingResult
      → ExchangeFilters
      → Loop
      → Action Step
  unfolding after_submit
  submit d i s k g z f l =
      attempt (open_bracketed_position v.hexdigest (bracket_for v i s k g z f))
      >>= after_submit d s.symbol z l

  -- Sizing refused, or there are no filters: the entry is counted as rejected.
  unfoldable pub decline : ℕ → RejectReason → SymbolDecision → Loop → Action Step
  decline i reason d l =
      log risk_rejection (declined i (reason_name reason)) trading_actor
      >> pure (goes_on (rejecting (refused_for reason d) l))

  unfoldable pub on_size :
      SymbolDecision
      → ℕ
      → StrategySpec
      → Kline
      → Signal
      → ExchangeFilters
      → Loop
      → SizingResult
      → Action Step
  unfolding submit decline
  on_size d i s k g f l z =
      if z.accepted
      then submit d i s k g z f l
      else decline i z.reason (concluded risk_rejected d) l

  unfoldable pub size_entry :
      SymbolDecision
      → ℕ
      → StrategySpec
      → Kline
      → Signal
      → ExchangeFilters
      → Loop
      → Decimal
      → Action Step
  unfolding on_size
  size_entry d i s k g f l multiplier =
      or_raise (size_position (request_for v t g f multiplier l)) arithmetic_error
      >>= on_size d i s k g f l

  unfoldable pub find_filters :
      SymbolDecision
      → ℕ
      → StrategySpec
      → Kline
      → Signal
      → Loop
      → Result ExchangeFilters
      → Action Step
  unfolding size_entry decline
  find_filters d i s k g l (ok f) =
      gets (risk_multiplier_for i (length (t.live_returns i)) v.promotion)
      >>= size_entry d i s k g f l
  find_filters d i s k g l (raised e) =
      if is_atlas_or_os e
      then decline i filters_unavailable (concluded filters_not_available d) l
      else raise e

  unfoldable pub act_on :
      SymbolDecision → ℕ → StrategySpec → Kline → Loop → Option Signal → Action Step
  unfolding find_filters
  act_on d i s k l none = pure (goes_on (with_decision (concluded no_signal d) l))
  act_on d i s k l (some g) =
      find_filters (record d { signal = some g }) i s k g l (v.filters_for s.symbol)

  -- A symbol that may be entered: the rules on its last bar.
  unfoldable pub judge : SymbolDecision → ℕ → StrategySpec → List Kline → Kline → Loop → Action Step
  unfolding act_on
  judge d i s ks k l =
      if not (can_open_symbol t.account s.symbol) || any (text_eq s.symbol) l.open_now
      then pure (goes_on (with_decision (concluded position_already_open d) l))
      else act_on (record d { rules = explain s ks none }) i s k l
          (find (λ (g : Signal). g.bar_index == length ks - 1) (evaluate s ks))

  -- Stale data arms the kill switch, and stops the loop.
  unfoldable pub halt_stale : StrategySpec → Kline → SymbolDecision → Loop → Action Step
  halt_stale s k d l =
      arm data_staleness (v.stale_text s.symbol (age_of k.close_time reference)) trading_actor
      >> pure (stops (halting (v.halt_text s.symbol) (concluded data_stale d) l))

  -- The data of a symbol: valid, and not stale.
  unfoldable pub observe :
      SymbolDecision → ℕ → StrategySpec → KlineSeries → Kline → Loop → Action Step
  unfolding judge halt_stale
  observe d i s series k l =
      if not (validate_series series false).valid
      then pure (
          goes_on (with_decision (concluded data_invalid (record d { data_valid = some false })) l))
      else if is_stale k.close_time series.timeframe reference 2
      then halt_stale s k (record d { data_valid = some true }) l
      else judge (record d { data_valid = some true }) i s series.bars k l

  unfoldable pub observe_in :
      SymbolDecision → ℕ → StrategySpec → KlineSeries → Kline → Loop → MarketRegime → Action Step
  unfolding observe
  observe_in d i s series k l regime =
      observe (seen_in series k (age_of k.close_time reference) regime d) i s series k l

  unfoldable pub seen_bars :
      SymbolDecision → ℕ → StrategySpec → KlineSeries → Loop → Option Kline → Action Step
  unfolding observe_in
  seen_bars d i s series l none =
      pure (goes_on (with_decision (concluded no_market_data (record d { num_bars = some 0 })) l))
  seen_bars d i s series l (some k) =
      of_result (classify_regime default_regime_thresholds series.bars)
      >>= observe_in d i s series k l

  unfoldable pub with_series :
      SymbolDecision → ℕ → StrategySpec → Loop → Option KlineSeries → Action Step
  unfolding seen_bars
  with_series d i s l none = pure (goes_on (with_decision (concluded no_market_data d) l))
  with_series d i s l (some series) = seen_bars d i s series l (last series.bars)

  -- One live strategy under the symbol that it stands for.
  unfoldable pub consider : Text → ℕ → Option StrategySpec → Loop → Action Step
  unfolding with_series
  consider symbol i none l = pure (
      goes_on
        (with_decision (record (bare_decision symbol spec_missing) { strategy_id = some i }) l))
  consider symbol i (some s) l =
      with_series (record (bare_decision symbol no_market_data) { strategy_id = some i }) i s l
        (series_for s.symbol t.series_by_symbol)

  -- The strategies of one symbol.
  unfoldable pub consider_each : Text → List (ℕ × Option StrategySpec) → Loop → Action Step
  unfolding consider
  consider_each symbol [] l = pure (goes_on l)
  consider_each symbol ((i, s) ∷ rest) l =
      consider symbol i s l >>= continue_with (consider_each symbol rest)
