-- ===== src/Trading.antt =====
-- src/atlas/runtime/trading_service.py, `TradingService`: one tick of the live loop, which reconciles,
-- checks the account, decides on every strategy and symbol, and supervises. The notes of a result and
-- the texts of details are left out; the texts of reasons are made by parameters.
pub mod Decisions
pub mod Steps
pub mod Entries
pub mod Exposure
pub mod Tick
use atlas_ai_trading.Decimal.{Decimal, nought}
use atlas_ai_trading.Limits.{AccountState, PortfolioLimits}
use atlas_ai_trading.Market.{KlineSeries}
use atlas_ai_trading.Monitor.{
  MonitorThresholds, RuleAction, RuleVerdict, SupervisionResult, retire, same_action, supervise,
}
use atlas_ai_trading.Monitor.Health.{compute_health}
use atlas_ai_trading.Prelude.{
  Bool, List, Option, [], any, false, if◌then◌else◌, keep, map, none, not, some, true, ℕ, ◌++◌, ◌∷◌,
}
use atlas_ai_trading.Prelude.Int.{ℤ}
use atlas_ai_trading.Prelude.Text.{Text, text, text_eq, upper}
use atlas_ai_trading.Promotion.{PromotionThresholds}
use atlas_ai_trading.Reconcile.{RemoteOrder}
use atlas_ai_trading.Registry.{list_by_status}
use atlas_ai_trading.Sizing.{ExchangeFilters, SizingPolicy}
use atlas_ai_trading.Spec.{StrategySpec}
use atlas_ai_trading.Trading.Decisions.{SymbolDecision, bare_decision}
use atlas_ai_trading.World.{
  Action, DecisionOutcome, Done, ExchangeEnv, KillSwitchTrigger, Result, configuration_error,
  decided, done, gets, live_status, log, ok, pure, raised, retired, system, tick_decision, ticked,
  ◌>>=◌, ◌>>◌,
}

-- What the service was made with. `specs` reads the payload that is stored under a hash.
pub record Service : Type 0 where
  pub exchange_env : ExchangeEnv
  pub policy : SizingPolicy
  pub limits : PortfolioLimits
  pub filters_for : Text → Result ExchangeFilters
  pub hexdigest : Text → Text
  pub specs : Text → Option StrategySpec
  pub monitor : MonitorThresholds
  pub promotion : PromotionThresholds
  pub breach_text : KillSwitchTrigger → AccountState → Text
  pub stale_text : Text → ℤ → Text
  pub halt_text : Text → Text
  pub verdict_text : RuleVerdict → Text
  pub moment : ℕ → Text

-- The constructor: assumed filters are refused (RISK-09).
unfoldable pub trading_service : (is_live : Bool) → Service → Result Service
trading_service true v = ok v
trading_service false v = raised configuration_error

-- The arguments of a tick.
pub record Inputs : Type 0 where
  pub account : AccountState
  pub series_by_symbol : List (Text × KlineSeries)
  pub exchange_orders : List RemoteOrder
  pub live_returns : ℕ → List Decimal
  pub backtest_stats : ℕ → Option (Decimal × Decimal × Decimal)
  pub symbols : Option (List Text)
  pub now : Option ℕ

pub record TickResult : Type 0 where
  pub at : ℕ
  pub halted : Bool
  pub halt_reason : Text
  pub entries_placed : ℕ
  pub entries_rejected : ℕ
  pub is_suspended : Bool
  pub retired : List ℕ
  pub decisions : List SymbolDecision

abbrev pub trading_actor : Text
trading_actor = text "trading"

-- `dict.get`
unfoldable pub series_for : Text → List (Text × KlineSeries) → Option KlineSeries
series_for symbol [] = none
series_for symbol ((k, s) ∷ rest) = if text_eq k symbol then some s else series_for symbol rest

abbrev symbols_or : Option (List Text) → List (Text × KlineSeries) → List Text
symbols_or (some given) series = given
symbols_or none series = map (λ (p : Text × KlineSeries). p.0) series

-- `configured`
unfoldable pub configured_in : Inputs → List Text
configured_in t = map upper (symbols_or t.symbols t.series_by_symbol)

abbrev pub decide : SymbolDecision → TickResult → TickResult
decide d r = record r { decisions = r.decisions ++ d ∷ [] }

-- `_fill_remaining`: a decision for every symbol that has none.
abbrev pub names : Text → SymbolDecision → Bool
names symbol d = text_eq d.symbol symbol

unfoldable pub fill_remaining : List Text → DecisionOutcome → TickResult → TickResult
fill_remaining universe outcome r = record r {
  decisions =
      r.decisions
      ++ map (λ symbol. bare_decision symbol outcome)
          (keep (λ symbol. not (any (names symbol) r.decisions)) universe);
}

-- `_record_decisions`
unfoldable pub record_decisions : List SymbolDecision → Action Done
record_decisions [] = done
record_decisions (d ∷ ds) =
    log tick_decision (decided d.symbol d.outcome d.strategy_id) trading_actor
    >> record_decisions ds

abbrev pub is_retiring : Option RuleAction → Bool
is_retiring none = false
is_retiring (some a) = same_action a retire

abbrev pub cons_if : Bool → ℕ → List ℕ → List ℕ
cons_if true i is = i ∷ is
cons_if false i is = is

module _ (v : Service) (t : Inputs) where
  unfoldable pub supervise_one : ℕ → Decimal × Decimal × Decimal → Action SupervisionResult
  supervise_one i (mean, sigma, win_rate) =
      supervise v.verdict_text i (compute_health (t.live_returns i) mean sigma 0 nought v.monitor)
        win_rate v.monitor

  -- A strategy without a baseline is passed over.
  unfoldable pub supervise_at :
      ℕ → Option (Decimal × Decimal × Decimal) → Action (List ℕ) → Action (List ℕ)
  unfolding supervise_one
  supervise_at i none others = others
  supervise_at i (some baseline) others = supervise_one i baseline >>= λ s.
      others >>= λ gone. pure (cons_if (is_retiring s.action_taken) i gone)

  -- `_supervise_all`, over the strategies that were live before it.
  unfoldable pub supervise_each : List ℕ → Action (List ℕ)
  unfolding supervise_at
  supervise_each [] = pure []
  supervise_each (i ∷ is) = supervise_at i (t.backtest_stats i) (supervise_each is)

  unfoldable pub supervise_all : Action (List ℕ)
  unfolding supervise_each supervise_one
  supervise_all = do live ← gets (list_by_status live_status); supervise_each live

-- `_log`
unfoldable pub log_tick : TickResult → Action Done
log_tick r =
    log system (ticked r.halted r.halt_reason r.entries_placed r.entries_rejected r.retired)
      trading_actor
