-- ===== src/Backtest.antt =====
-- src/atlas/backtest/engine.py: the signals of a spec traded over a history, bar by bar.
pub mod Costs
pub mod Bars
pub mod Exits
pub mod Guard
pub mod Chronology
pub mod Trades
pub mod Rounds
pub mod Stats
use atlas_ai_trading.Backtest.Bars.{advance_to, guarded_get}
use atlas_ai_trading.Backtest.Costs.{CostModel, fee_on, fill_price_at}
use atlas_ai_trading.Backtest.Exits.{
  ExitReason, OpenPosition, Trade, close_trade, exit_end_of_data, resolve_exit,
}
use atlas_ai_trading.Decimal.{Decimal, nought, one, ◌⊕◌, ◌⊖◌}
use atlas_ai_trading.Evaluator.{Signal, evaluate}
use atlas_ai_trading.Market.{Kline}
use atlas_ai_trading.Prelude.{
  List, Option, [], and_then, find, get_elem?, if◌then◌else◌, length, none, some, suc, true, zero,
  ℕ, ◌++◌, ◌+◌, ◌-◌, ◌==◌, ◌∷◌,
}
use atlas_ai_trading.Sizing.{
  ExchangeFilters, SizingPolicy, SizingRequest, SizingResult, size_position,
}
use atlas_ai_trading.Spec.{StrategySpec}
use atlas_ai_trading.World.{Result, arithmetic_error, index_error, ok, raised}

-- The arguments of `run_backtest` that stay the same through its loop, and its signals.
pub record Setup : Type 0 where
  pub policy : SizingPolicy
  pub filters : ExchangeFilters
  pub costs : CostModel
  pub max_bars : ℕ
  pub signals : List Signal

-- The variables of the loop.
pub record Engine : Type 0 where
  pub equity : Decimal
  pub equity_curve : List Decimal
  pub trades : List Trade
  pub rejected : ℕ
  pub position : Option OpenPosition
  pub pending : Option Signal

-- `signals_by_bar.get(index)`: the first rule to fire wins.
unfoldable pub signal_on : ℕ → List Signal → Option Signal
signal_on index = find (λ (g : Signal). g.bar_index == index)

unfoldable pub entry_request : Setup → Kline → Signal → Decimal → SizingRequest
unfolding fill_price_at
entry_request u k g equity = record {
  equity = equity;
  free_cash = equity;
  entry_price = fill_price_at u.costs k.open_price g.side true;
  stop_price = g.stop_price;
  side = g.side;
  policy = u.policy;
  filters = u.filters;
  num_open = 0;
  deployed = nought;
  risk_multiplier = one;
}

-- 1. A pending signal and its size: the position is opened, or the signal counted as rejected.
unfoldable pub enter : Setup → ℕ → Kline → Signal → SizingResult → Engine → Engine
unfolding fee_on fill_price_at
enter u index k g r e =
    if r.accepted
    then record e {
      equity = e.equity ⊖ fee_on u.costs r.notional;
      position = some (record {
        entry_index = index;
        side = g.side;
        quantity = r.quantity;
        entry_price = fill_price_at u.costs k.open_price g.side true;
        stop_price = g.stop_price;
        target_price = g.target_price;
        entry_fee = fee_on u.costs r.notional;
        was_capped = r.capped;
      });
      pending = none;
    }
    else record e { rejected = e.rejected + 1; pending = none }

fill_pending_of : Setup → ℕ → Kline → Option OpenPosition → Option Signal → Engine → Option Engine
unfolding enter entry_request
fill_pending_of u index k none (some g) e =
    and_then (size_position (entry_request u k g e.equity)) (λ r. some (enter u index k g r e))
fill_pending_of u index k none none e = some e
fill_pending_of u index k (some p) g e = some e

unfoldable pub fill_pending : Setup → ℕ → Kline → Engine → Option Engine
unfolding fill_pending_of
fill_pending u index k e = fill_pending_of u index k e.position e.pending e

-- A closed position is a trade.
unfoldable pub book : CostModel → OpenPosition → ℕ → Kline → Decimal → ExitReason → Engine → Engine
unfolding close_trade
book c p index k raw reason e =
    let (t, exit_fee) = close_trade c p index k raw reason in
    record e {
      equity = e.equity ⊕ (t.gross_pnl ⊖ exit_fee);
      trades = e.trades ++ t ∷ [];
      position = none;
    }

abbrev booked : Setup → OpenPosition → ℕ → Kline → Engine → Option (Decimal × ExitReason) → Engine
booked u p index k e none = e
booked u p index k e (some (raw, reason)) = book u.costs p index k raw reason e

abbrev managed : Setup → ℕ → Kline → Engine → Option OpenPosition → Engine
managed u index k e none = e
managed u index k e (some p) = booked u p index k e (resolve_exit p k index u.max_bars)

-- 2. The open position against the range of the bar.
unfoldable pub manage : Setup → ℕ → Kline → Engine → Engine
unfolding book resolve_exit
manage u index k e = managed u index k e e.position

arm_of : Setup → ℕ → Option OpenPosition → Option Signal → Engine → Engine
unfolding signal_on
arm_of u index none none e = record e { pending = signal_on index u.signals }
arm_of u index none (some g) e = e
arm_of u index (some p) g e = e

-- 3. A signal of this bar waits for the open of the next.
unfoldable pub arm_signal : Setup → ℕ → Engine → Engine
unfolding arm_of
arm_signal u index e = arm_of u index e.position e.pending e

abbrev marked : Engine → Engine
marked e = record e { equity_curve = e.equity_curve ++ e.equity ∷ [] }

-- One bar; `none` is the exception of a division by zero.
unfoldable pub on_bar : Setup → ℕ → Kline → Engine → Option Engine
unfolding fill_pending manage arm_signal
on_bar u index k e =
    and_then (fill_pending u index k e)
      (λ e'. some (marked (arm_signal u index (manage u index k e'))))

abbrev or_arithmetic_error : Option Engine → Result Engine
or_arithmetic_error none = raised arithmetic_error
or_arithmetic_error (some e) = ok e

-- The bar is read through the guard, whose frontier has come to it.
abbrev pub bar_at : List Kline → ℕ → Result Kline
bar_at ks index = guarded_get (advance_to index (record { bars = ks; frontier = none })) index

-- The rounds that are left of the loop.
unfoldable pub run_bars : Setup → List Kline → (index left : ℕ) → Engine → Result Engine
unfolding on_bar guarded_get advance_to
run_bars u ks index zero e = ok e
run_bars u ks index (suc left) e = elim (bar_at ks index) [
  | raised x ↦ raised x
  | ok k ↦ elim (on_bar u index k e) [
    | none ↦ raised arithmetic_error
    | some e' ↦ run_bars u ks (index + 1) left e'
  ]
]

abbrev set_last : Decimal → List Decimal → List Decimal
set_last v [] = []
set_last v (x ∷ []) = v ∷ []
set_last v (x ∷ y ∷ xs) = x ∷ set_last v (y ∷ xs)

abbrev closed_out : Setup → List Kline → Engine → OpenPosition → Option Kline → Result Engine
closed_out u ks e p none = raised index_error
closed_out u ks e p (some k) =
    let e' = book u.costs p (length ks - 1) k k.close exit_end_of_data e in
    ok (record e' { equity_curve = set_last e'.equity e'.equity_curve })

abbrev finished : Setup → List Kline → Engine → Option OpenPosition → Result Engine
finished u ks e none = ok e
finished u ks e (some p) = closed_out u ks e p (get_elem? ks (length ks - 1))

-- What is still open is closed at the last close.
unfoldable pub close_out : Setup → List Kline → Engine → Result Engine
unfolding book
close_out u ks e = finished u ks e e.position

abbrev pub fresh : Decimal → Engine
fresh starting_equity = record {
  equity = starting_equity;
  equity_curve = [];
  trades = [];
  rejected = 0;
  position = none;
  pending = none;
}

abbrev pub setup_of : StrategySpec → List Kline → SizingPolicy → ExchangeFilters → CostModel → Setup
setup_of s ks policy filters costs = record {
  policy = policy;
  filters = filters;
  costs = costs;
  max_bars = s.max_bars_in_trade;
  signals = evaluate s ks;
}

-- The loop of `run_backtest` and what follows it, with any signals.
unfoldable pub run_engine : Setup → List Kline → Decimal → Result Engine
unfolding run_bars close_out
run_engine u ks starting_equity = elim (run_bars u ks 0 (length ks) (fresh starting_equity)) [
  | raised x ↦ raised x
  | ok e ↦ close_out u ks e
]

unfoldable pub run_backtest :
    StrategySpec
    → List Kline
    → SizingPolicy
    → ExchangeFilters
    → (starting_equity : Decimal) → CostModel
    → Result Engine
unfolding run_engine
run_backtest s ks policy filters starting_equity costs =
    run_engine (setup_of s ks policy filters costs) ks starting_equity
