-- ===== src/Monitor.antt =====
-- src/atlas/monitor/rules.py and src/atlas/monitor/supervisor.py: the rules on a strategy's live
-- results, and the automatic retirement that they lead to. The text of a verdict's detail, which only
-- goes into reasons, is a parameter.
pub mod Severity
pub mod Health
use atlas_ai_trading.Decimal.{Decimal, nought, of_ℕ, ◌⊗◌, ◌⊖◌, ◌≺◌}
use atlas_ai_trading.Prelude.{
  Bool, List, Option, [], any, false, if◌then◌else◌, keep, leb, none, some, true, ℕ, ◌&&◌, ◌++◌,
  ◌∷◌,
}
use atlas_ai_trading.Prelude.Text.{Text, text}
use atlas_ai_trading.Registry.{is_status, set_status, status}
use atlas_ai_trading.World.{
  Action, Done, World, live_status, log, pure, retired, strategy_named, strategy_retired,
  strategy_status_changed, suspended, system, ◌>>◌,
}

pub data RuleAction : Type 0 where
  retire suspend alert : RuleAction

abbrev pub same_action : RuleAction → RuleAction → Bool
same_action retire retire = true
same_action suspend suspend = true
same_action alert alert = true
same_action _ _ = false

pub record MonitorThresholds : Type 0 where
  pub window : ℕ
  pub band_sigma : Decimal
  pub win_rate_retention : Decimal
  pub min_profit_factor : Decimal
  pub max_consecutive_losses : ℕ
  pub starvation_multiple : Decimal

pub record StrategyHealth : Type 0 where
  pub trade_count : ℕ
  pub rolling_win_rate : Decimal
  pub rolling_profit_factor : Decimal
  pub consecutive_losses : ℕ
  pub realised_equity : Decimal
  pub expected_equity : Decimal
  pub equity_sigma : Decimal
  pub bars_since_last_signal : ℕ
  pub mean_inter_trade_bars : Decimal

pub record RuleVerdict : Type 0 where
  pub rule : Text
  pub fired : Bool
  pub action : RuleAction

unfoldable pub equity_band_breach : StrategyHealth → MonitorThresholds → RuleVerdict
equity_band_breach h t = record {
  rule = text "MON-01 equity_band";
  fired =
      (nought ≺ h.equity_sigma)
      && (h.realised_equity ≺ h.expected_equity ⊖ h.equity_sigma ⊗ t.band_sigma);
  action = retire;
}

unfoldable pub win_rate_collapse : StrategyHealth → Decimal → MonitorThresholds → RuleVerdict
win_rate_collapse h backtest_win_rate t = record {
  rule = text "MON-02 rolling_win_rate";
  fired =
      leb t.window h.trade_count && (h.rolling_win_rate ≺ backtest_win_rate ⊗ t.win_rate_retention);
  action = retire;
}

unfoldable pub profit_factor_collapse : StrategyHealth → MonitorThresholds → RuleVerdict
profit_factor_collapse h t = record {
  rule = text "MON-03 rolling_profit_factor";
  fired = leb t.window h.trade_count && (h.rolling_profit_factor ≺ t.min_profit_factor);
  action = retire;
}

unfoldable pub consecutive_loss_streak : StrategyHealth → MonitorThresholds → RuleVerdict
consecutive_loss_streak h t = record {
  rule = text "MON-04 consecutive_losses";
  fired = leb t.max_consecutive_losses h.consecutive_losses;
  action = suspend;
}

unfoldable pub signal_starvation : StrategyHealth → MonitorThresholds → RuleVerdict
signal_starvation h t = record {
  rule = text "MON-05 signal_starvation";
  fired =
      (nought ≺ h.mean_inter_trade_bars)
      && (h.mean_inter_trade_bars ⊗ t.starvation_multiple ≺ of_ℕ h.bars_since_last_signal);
  action = alert;
}

unfoldable pub evaluate_all : StrategyHealth → Decimal → MonitorThresholds → List RuleVerdict
evaluate_all h backtest_win_rate t =
    equity_band_breach h t
    ∷ win_rate_collapse h backtest_win_rate t
    ∷ profit_factor_collapse h t
    ∷ consecutive_loss_streak h t
    ∷ signal_starvation h t
    ∷ []

pub record SupervisionResult : Type 0 where
  pub strategy_id : ℕ
  pub verdicts : List RuleVerdict
  pub action_taken : Option RuleAction
  pub reason : Text

abbrev pub fired_verdicts : List RuleVerdict → List RuleVerdict
fired_verdicts vs = keep (λ (v : RuleVerdict). v.fired) vs

abbrev pub demands : RuleAction → List RuleVerdict → Bool
demands a vs = any (λ (v : RuleVerdict). same_action v.action a) vs

-- The most severe action that a fired rule demands.
unfoldable pub most_severe : List RuleVerdict → Option RuleAction
most_severe fired =
    if demands retire fired
    then some retire
    else if demands suspend fired
    then some suspend
    else if demands alert fired
    then some alert
    else none

-- `"; ".join(f"{v.rule}: {v.detail}" for v in …)`
unfoldable pub joined : (RuleVerdict → Text) → List RuleVerdict → Text
joined detail [] = []
joined detail (v ∷ []) = v.rule ++ text ": " ++ detail v
joined detail (v ∷ u ∷ vs) = v.rule ++ text ": " ++ detail v ++ text "; " ++ joined detail (u ∷ vs)

unfoldable pub reason_for : (RuleVerdict → Text) → RuleAction → List RuleVerdict → Text
unfolding joined
reason_for detail a fired = joined detail (keep (λ (v : RuleVerdict). same_action v.action a) fired)

abbrev supervisor_actor : Text
supervisor_actor = text "monitor"

unfoldable pub act : ℕ → Text → RuleAction → Action Done
act i reason retire =
    set_status i retired reason >> log strategy_retired (strategy_named i) supervisor_actor
act i reason suspend =
    set_status i suspended reason >> log strategy_status_changed (strategy_named i) supervisor_actor
act i reason alert = log system (strategy_named i) supervisor_actor

abbrev result_with : ℕ → List RuleVerdict → Option RuleAction → Text → SupervisionResult
result_with i vs a reason = record {
  strategy_id = i;
  verdicts = vs;
  action_taken = a;
  reason = reason;
}

unfoldable pub apply_action :
    (RuleVerdict → Text) → ℕ → List RuleVerdict → Option RuleAction → Action SupervisionResult
apply_action detail i vs none = pure (result_with i vs none (text "healthy"))
apply_action detail i vs (some a) =
    let reason = reason_for detail a (fired_verdicts vs) in
    act i reason a >> pure (result_with i vs (some a) reason)

unfoldable pub supervise :
    (RuleVerdict → Text)
    → ℕ
    → StrategyHealth
    → Decimal
    → MonitorThresholds
    → Action SupervisionResult
supervise detail i h backtest_win_rate t w =
    let vs = evaluate_all h backtest_win_rate t in
    if is_status (status i w) retired
    then pure (result_with i vs none (text "already retired")) w
    else apply_action detail i vs (most_severe (fired_verdicts vs)) w

unfoldable pub can_open_new_entries : ℕ → World → Bool
can_open_new_entries i w = is_status (status i w) live_status
