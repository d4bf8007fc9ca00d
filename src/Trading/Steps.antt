-- ===== src/Trading/Steps.antt =====
-- src/atlas/runtime/trading_service.py, `TradingService.tick`: what its loop carries, and how a decision
-- changes it.
pub mod Rules
pub mod Tally
use atlas_ai_trading.Brackets.{Bracket, BracketResult}
use atlas_ai_trading.Broker.{is_order_rejection}
use atlas_ai_trading.Decimal.{Decimal, ◌⊕◌, ◌⊖◌}
use atlas_ai_trading.Evaluator.{Signal}
use atlas_ai_trading.Market.{Kline, KlineSeries}
use atlas_ai_trading.Prelude.{
  Bool, List, Option, [], any, false, if◌then◌else◌, length, none, some, true, ℕ, ◌++◌, ◌+◌, ◌∷◌,
}
use atlas_ai_trading.Prelude.Int.{ℤ}
use atlas_ai_trading.Prelude.Text.{Text, text, text_eq, upper}
use atlas_ai_trading.Regime.{MarketRegime}
use atlas_ai_trading.Sizing.{
  ExchangeFilters, RejectReason, SizingRequest, SizingResult, below_min_notional, below_min_qty,
  filters_unavailable, invalid_levels, max_concurrent_reached, max_deployed, no_free_cash,
  no_reason, zero_quantity,
}
use atlas_ai_trading.Spec.{StrategySpec}
use atlas_ai_trading.Trading.{Inputs, Service, TickResult, decide}
use atlas_ai_trading.Trading.Decisions.{SymbolDecision}
use atlas_ai_trading.World.{
  Action, DecisionOutcome, Error, Result, arithmetic_error, attribute_error, decision_halted,
  entered, index_error, integrity_error, invalid_record, key_error, kill_switch_armed_error, ok,
  order_rejected, pure, raise, raised, sqlite_error, value_error,
}

-- What the loop carries from one strategy to the next.
pub record Loop : Type 0 where
  pub result : TickResult
  pub open_now : List Text
  pub free_cash : Decimal
  pub deployed : Decimal

-- A round goes on to the next strategy, or stops the loop.
pub data Step : Type 0 where
  goes_on stops : Loop → Step

abbrev pub with_decision : SymbolDecision → Loop → Loop
with_decision d l = record l { result = decide d l.result }

abbrev pub rejecting : SymbolDecision → Loop → Loop
rejecting d l = record l {
  result = decide d (record l.result { entries_rejected = l.result.entries_rejected + 1 });
}

abbrev pub halting : Text → SymbolDecision → Loop → Loop
halting reason d l = record l {
  result = decide d (record l.result { halted = true; halt_reason = reason });
}

-- The symbol of a strategy, whose spec may not load.
abbrev pub symbol_of : Option StrategySpec → Text
symbol_of none = text "UNKNOWN"
symbol_of (some s) = upper s.symbol

-- `open_symbols.add(symbol)`
abbrev pub add_symbol : Text → List Text → List Text
add_symbol symbol ss = if any (text_eq symbol) ss then ss else ss ++ symbol ∷ []

abbrev pub entering : SymbolDecision → Text → SizingResult → Loop → Loop
entering d symbol z l = record {
  result = decide d (record l.result { entries_placed = l.result.entries_placed + 1 });
  open_now = add_symbol symbol l.open_now;
  free_cash = l.free_cash ⊖ z.notional;
  deployed = l.deployed ⊕ z.notional;
}

abbrev pub of_result : {A : Type 0} → Result A → Action A
of_result (ok a) = pure a
of_result (raised e) = raise e

-- `except (AtlasError, OSError)`
abbrev pub is_atlas_or_os : Error → Bool
is_atlas_or_os value_error = false
is_atlas_or_os integrity_error = false
is_atlas_or_os sqlite_error = false
is_atlas_or_os attribute_error = false
is_atlas_or_os arithmetic_error = false
is_atlas_or_os key_error = false
is_atlas_or_os index_error = false
is_atlas_or_os invalid_record = false
is_atlas_or_os _ = true

abbrev pub is_halt : Error → Bool
is_halt kill_switch_armed_error = true
is_halt _ = false

abbrev pub bracket_for :
    Service → ℕ → StrategySpec → Kline → Signal → SizingResult → ExchangeFilters → Bracket
bracket_for v i s k g z f = record {
  exchange_env = v.exchange_env;
  strategy_id = i;
  bar_time = v.moment k.open_time;
  symbol = s.symbol;
  side = g.side;
  quantity = z.quantity;
  stop_price = g.stop_price;
  reference_price = g.reference_price;
  target_price = g.target_price;
  filters = f;
}

abbrev pub request_for :
    Service → Inputs → Signal → ExchangeFilters → Decimal → Loop → SizingRequest
request_for v t g f multiplier l = record {
  equity = t.account.equity;
  free_cash = l.free_cash;
  entry_price = g.reference_price;
  stop_price = g.stop_price;
  side = g.side;
  policy = v.policy;
  filters = f;
  num_open = length l.open_now;
  deployed = l.deployed;
  risk_multiplier = multiplier;
}

abbrev pub reason_name : RejectReason → Text
reason_name no_reason = text "NONE"
reason_name invalid_levels = text "INVALID_LEVELS"
reason_name filters_unavailable = text "FILTERS_UNAVAILABLE"
reason_name below_min_notional = text "BELOW_MIN_NOTIONAL"
reason_name below_min_qty = text "BELOW_MIN_QTY"
reason_name no_free_cash = text "NO_FREE_CASH"
reason_name max_concurrent_reached = text "MAX_CONCURRENT"
reason_name max_deployed = text "MAX_DEPLOYED"
reason_name zero_quantity = text "ZERO_QUANTITY"

-- `_decision` with the outcome; the other fields are in the decision that is given.
abbrev pub concluded : DecisionOutcome → SymbolDecision → SymbolDecision
concluded outcome d = record d { outcome = outcome }

abbrev pub sized_at : SizingResult → SymbolDecision → SymbolDecision
sized_at z d = record d { quantity = some z.quantity; notional = some z.notional }

abbrev pub refused_for : RejectReason → SymbolDecision → SymbolDecision
refused_for r d = record d { risk_reason = some r }

abbrev pub seen_in : KlineSeries → Kline → ℤ → MarketRegime → SymbolDecision → SymbolDecision
seen_in series k age regime d = record d {
  num_bars = some (length series.bars);
  last_bar_close = some k.close_time;
  bar_age = some age;
  regime = some regime;
}

abbrev pub mid_tick : Text
mid_tick = text "kill switch armed mid-tick"

unfoldable pub after_submit :
    SymbolDecision → Text → SizingResult → Loop → Result BracketResult → Action Step
after_submit d symbol z l (ok b) =
    pure (goes_on (entering (concluded entered (sized_at z d)) symbol z l))
after_submit d symbol z l (raised e) =
    if is_halt e
    then pure (
        stops (
          halting (text "kill switch armed mid-tick") (concluded decision_halted (sized_at z d)) l))
    else if is_order_rejection e
    then pure (goes_on (rejecting (concluded order_rejected (sized_at z d)) l))
    else raise e

-- What comes after a round: the next one, unless the loop has stopped.
abbrev pub continue_with : (Loop → Action Step) → Step → Action Step
continue_with next (goes_on l) = next l
continue_with next (stops l) = pure (stops l)
