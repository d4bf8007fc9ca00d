-- ===== src/Trading/Decisions.antt =====
-- src/atlas/runtime/decisions.py: what a tick decided on a symbol. The text of the detail is left out.
use atlas_ai_trading.Decimal.{Decimal}
use atlas_ai_trading.Evaluator.{Signal}
use atlas_ai_trading.Evaluator.Report.{RuleResult}
use atlas_ai_trading.Prelude.{Bool, List, Option, [], false, is_some, none, true, ℕ}
use atlas_ai_trading.Prelude.Int.{ℤ}
use atlas_ai_trading.Prelude.Text.{Text}
use atlas_ai_trading.Regime.{MarketRegime}
use atlas_ai_trading.Sizing.{RejectReason}
use atlas_ai_trading.World.{
  DecisionOutcome, entered, filters_not_available, no_signal, order_rejected, risk_rejected,
}

pub record SymbolDecision : Type 0 where
  pub symbol : Text
  pub outcome : DecisionOutcome
  pub strategy_id : Option ℕ
  pub num_bars : Option ℕ
  pub data_valid : Option Bool
  pub last_bar_close : Option ℕ
  pub bar_age : Option ℤ
  pub rules : List RuleResult
  pub regime : Option MarketRegime
  pub signal : Option Signal
  pub risk_reason : Option RejectReason
  pub quantity : Option Decimal
  pub notional : Option Decimal

-- A decision of which nothing more is known.
abbrev pub bare_decision : Text → DecisionOutcome → SymbolDecision
bare_decision symbol outcome = record {
  symbol = symbol;
  outcome = outcome;
  strategy_id = none;
  num_bars = none;
  data_valid = none;
  last_bar_close = none;
  bar_age = none;
  rules = [];
  regime = none;
  signal = none;
  risk_reason = none;
  quantity = none;
  notional = none;
}

-- `DecisionOutcome.is_entry` and `evaluated_market`
abbrev pub is_entry : DecisionOutcome → Bool
is_entry entered = true
is_entry _ = false

unfoldable pub evaluated_market : DecisionOutcome → Bool
evaluated_market entered = true
evaluated_market no_signal = true
evaluated_market risk_rejected = true
evaluated_market order_rejected = true
evaluated_market filters_not_available = true
evaluated_market _ = false

-- `SymbolDecision.strategy_present`
unfoldable pub strategy_present : SymbolDecision → Bool
strategy_present d = is_some d.strategy_id
