-- ===== src/Monitor/Severity.antt =====
-- What `Supervisor.supervise` makes of a strategy's status.
use atlas_ai_trading.Decimal.{Decimal}
use atlas_ai_trading.Monitor.{
  MonitorThresholds, RuleAction, RuleVerdict, StrategyHealth, act, alert, apply_action,
  consecutive_loss_streak, equity_band_breach, evaluate_all, fired_verdicts, most_severe,
  profit_factor_collapse, reason_for, retire, signal_starvation, supervise, suspend,
  win_rate_collapse,
}
use atlas_ai_trading.Prelude.{
  Bool, List, Option, arith, false, if◌then◌else◌, none, some, ℕ, ◌||◌, ◌≡◌,
}
use atlas_ai_trading.Prelude.Text.{Text}
use atlas_ai_trading.Registry.{is_retired, is_status, set_status, status}
use atlas_ai_trading.Registry.Rows.{find-set}
use atlas_ai_trading.World.{StrategyStatus, World, retired, suspended}

abbrev pub must_retire : StrategyHealth → Decimal → MonitorThresholds → Bool
must_retire h backtest_win_rate t =
    (equity_band_breach h t).fired
    || (win_rate_collapse h backtest_win_rate t).fired
    || (profit_factor_collapse h t).fired

most_severe_lem :
    (h : StrategyHealth) (rate : Decimal) (t : MonitorThresholds)
    → most_severe (fired_verdicts (evaluate_all h rate t)) ≡ (
        if must_retire h rate t
        then some retire
        else if (consecutive_loss_streak h t).fired
        then some suspend
        else if (signal_starvation h t).fired
        then some alert
        else none)
unfolding most_severe evaluate_all equity_band_breach win_rate_collapse profit_factor_collapse
    consecutive_loss_streak signal_starvation
most_severe_lem h rate t = ground arith

-- The status that an action gives a strategy.
abbrev pub status_after : Option RuleAction → StrategyStatus → StrategyStatus
status_after none s = s
status_after (some retire) s = retired
status_after (some suspend) s = suspended
status_after (some alert) s = s

apply_action-status :
    (detail : RuleVerdict → Text) (i : ℕ) (vs : List RuleVerdict) (a : Option RuleAction)
    (w : World)
    → is_status (status i w) retired ≡ false
    → status i (apply_action detail i vs a w).1
      ≡ elim (status i w) [ none ↦ none | some s ↦ some (status_after a s) ]
unfolding apply_action act set_status status
apply_action-status detail i vs none w n = ground arith
apply_action-status detail i vs (some retire) w n =
    let reason = reason_for detail retire (fired_verdicts vs) in
    ground (arith, find-set i i retired reason w.clock w.strategies)
apply_action-status detail i vs (some suspend) w n =
    let reason = reason_for detail suspend (fired_verdicts vs) in
    ground (arith, find-set i i suspended reason w.clock w.strategies)
apply_action-status detail i vs (some alert) w n = ground arith

-- Any single rule that retires is enough, whatever the others say; without one, a loss streak suspends;
-- starvation changes no status. A retired strategy stays as it is, and an unknown one unknown.
pub supervise-status :
    (detail : RuleVerdict → Text) (i : ℕ) (h : StrategyHealth) (rate : Decimal)
    (t : MonitorThresholds) (w : World)
    → status i (supervise detail i h rate t w).1 ≡ elim (status i w) [
      | none ↦ none
      | some s ↦ some (
          if is_retired s
          then s
          else if must_retire h rate t
          then retired
          else if (consecutive_loss_streak h t).fired
          then suspended
          else s)
    ]
unfolding supervise
supervise-status detail i h rate t w =
    let vs = evaluate_all h rate t in
    ground (
      arith,
      most_severe_lem h rate t,
      apply_action-status detail i vs (most_severe (fired_verdicts vs)) w,
    )
