-- ===== src/Recovery.antt =====
-- src/atlas/runtime/recovery.py: what a restarted process does before it trades.
pub mod Resumption
use atlas_ai_trading.KillSwitch.{is_armed, read_state, record_is_armed}
use atlas_ai_trading.Prelude.{
  Bool, List, Option, [], if◌then◌else◌, length, none, not, some, ℕ, ◌&&◌, ◌++◌, ◌∷◌,
}
use atlas_ai_trading.Prelude.Text.{Text, repr_texts, show_ℕ, text}
use atlas_ai_trading.Reconcile.{ReconciliationReport, RemoteOrder, is_clean, is_empty, reconcile}
use atlas_ai_trading.Registry.{list_by_status}
use atlas_ai_trading.World.{
  Action, KillSwitchRecord, KillSwitchTrigger, api_error_rate, daily_loss_limit, data_staleness,
  gets, live_status, log, manual, max_account_dd, pure, reconciliation_failure, recovery,
  state_disagreement, state_unreadable, system, ◌>>=◌, ◌>>◌,
}

-- `str(state.trigger)`
unfoldable pub trigger_name : Option KillSwitchTrigger → Text
trigger_name none = text "None"
trigger_name (some manual) = text "MANUAL"
trigger_name (some daily_loss_limit) = text "DAILY_LOSS_LIMIT"
trigger_name (some max_account_dd) = text "MAX_ACCOUNT_DD"
trigger_name (some reconciliation_failure) = text "RECONCILIATION_FAILURE"
trigger_name (some data_staleness) = text "DATA_STALENESS"
trigger_name (some api_error_rate) = text "API_ERROR_RATE"
trigger_name (some state_disagreement) = text "STATE_DISAGREEMENT"
trigger_name (some state_unreadable) = text "STATE_UNREADABLE"

-- `RecoveryReport`; a strategy is named by its id.
pub record RecoveryReport : Type 0 where
  pub kill_switch_armed : Bool
  pub is_reconciled : Bool
  pub live_strategies : List ℕ
  pub issues : List Text

unfoldable pub may_resume_entries : RecoveryReport → Bool
may_resume_entries r = not r.kill_switch_armed && r.is_reconciled && is_empty r.issues

abbrev pub recovery_actor : Text
recovery_actor = text "runtime"

-- The issue that a kill switch makes that is read as armed.
unfoldable pub armed_issues : KillSwitchRecord → List Text
unfolding trigger_name
armed_issues state =
    if record_is_armed state
    then (text "kill switch is ARMED ("
        ++ (trigger_name state.trigger ++ (text "): " ++ state.reason)))
      ∷ []
    else []

-- The issue that a report makes that is not clean.
unfoldable pub order_issues : ReconciliationReport → List Text
order_issues report =
    if is_clean report
    then []
    else (show_ℕ (length report.unreconcilable)
        ++ (text " unreconcilable order(s): " ++ repr_texts report.unreconcilable))
      ∷ []

-- What follows the reconciliation: the switch is read again, for that may have armed it.
unfoldable pub conclude : List Text → ReconciliationReport → Action RecoveryReport
unfolding order_issues
conclude armed_before report = do
  let issues = armed_before ++ order_issues report
  live_strategies ← gets (list_by_status live_status)
  armed_now ← gets is_armed
  log system (recovery armed_now (is_clean report) report.repaired (length live_strategies) issues)
      recovery_actor
  pure (record {
    kill_switch_armed = armed_now;
    is_reconciled = is_clean report;
    live_strategies = live_strategies;
    issues = issues;
  })

unfoldable pub recover : List RemoteOrder → Action RecoveryReport
unfolding armed_issues conclude
recover exchange_orders = do
  state ← gets read_state
  report ← reconcile exchange_orders
  conclude (armed_issues state) report
