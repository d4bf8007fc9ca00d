-- ===== src/Promotion/Lifecycle.antt =====
-- The lifecycle of a strategy under every call that writes it: `StrategyRegistry.register` and
-- `set_status`, `Supervisor.supervise` and `PromotionGate.promote`.
use atlas_ai_trading.Decimal.{Decimal}
use atlas_ai_trading.Ledger.{has_strategy_id}
use atlas_ai_trading.Monitor.{
  MonitorThresholds, RuleAction, RuleVerdict, StrategyHealth, act, alert, apply_action,
  evaluate_all, fired_verdicts, most_severe, reason_for, retire, supervise, suspend,
}
use atlas_ai_trading.Prelude.{Bool, List, Option, [], arith, none, some, ℕ, ◌∷◌, ◌≡◌}
use atlas_ai_trading.Prelude.Tables.{find-append}
use atlas_ai_trading.Prelude.Text.{Text}
use atlas_ai_trading.Promotion.{PromotionDecision, PromotionThresholds, promote}
use atlas_ai_trading.Promotion.Approval.{with_promotion}
use atlas_ai_trading.Registry.{SpecKey, insert_strategy, new_strategy, register, set_status, status}
use atlas_ai_trading.Registry.Rows.{find-set}
use atlas_ai_trading.World.{StrategyStatus, World, live_status, retired, suspended}

pub data LifecycleCall : Type 0 where
  registers : SpecKey → LifecycleCall
  sets_status : ℕ → StrategyStatus → Text → LifecycleCall
  supervises :
      (RuleVerdict → Text) → ℕ → StrategyHealth → Decimal → MonitorThresholds → LifecycleCall
  promotes : ℕ → PromotionDecision → Text → Bool → PromotionThresholds → LifecycleCall

-- The state after a call, returned or raised.
abbrev pub after_call : LifecycleCall → World → World
after_call (registers k) w = (register k w).1
after_call (sets_status i s reason) w = (set_status i s reason w).1
after_call (supervises detail i h rate t) w = (supervise detail i h rate t w).1
after_call (promotes i d approved_by human_confirmed t) w =
    (promote i d approved_by human_confirmed t w).1

abbrev pub after_lifecycle : List LifecycleCall → World → World
after_lifecycle [] w = w
after_lifecycle (c ∷ cs) w = after_lifecycle cs (after_call c w)

set_status-retired :
    (i j : ℕ) (s : StrategyStatus) (reason : Text) (w : World)
    → status i w ≡ some retired
    → status i (set_status j s reason w).1 ≡ some retired
unfolding set_status status
set_status-retired i j s reason w h = ground (arith, find-set i j s reason w.clock w.strategies)

apply_action-retired :
    (detail : RuleVerdict → Text) (i j : ℕ) (vs : List RuleVerdict) (a : Option RuleAction)
    (w : World)
    → status i w ≡ some retired
    → status i (apply_action detail j vs a w).1 ≡ some retired
unfolding apply_action act status
apply_action-retired detail i j vs none w h = h
apply_action-retired detail i j vs (some retire) w h =
    let reason = reason_for detail retire (fired_verdicts vs) in
    ground (arith, set_status-retired i j retired reason w h)
apply_action-retired detail i j vs (some suspend) w h =
    let reason = reason_for detail suspend (fired_verdicts vs) in
    ground (arith, set_status-retired i j suspended reason w h)
apply_action-retired detail i j vs (some alert) w h = h

supervise-retired :
    (detail : RuleVerdict → Text) (i j : ℕ) (x : StrategyHealth) (rate : Decimal)
    (t : MonitorThresholds) (w : World)
    → status i w ≡ some retired
    → status i (supervise detail j x rate t w).1 ≡ some retired
unfolding supervise
supervise-retired detail i j x rate t w h =
    let vs = evaluate_all x rate t in
    ground (arith, apply_action-retired detail i j vs (most_severe (fired_verdicts vs)) w h)

register-retired :
    (i : ℕ) (k : SpecKey) (w : World)
    → status i w ≡ some retired
    → status i (register k w).1 ≡ some retired
unfolding register insert_strategy status
register-retired i k w h =
    ground (arith, find-append (has_strategy_id i) w.strategies (new_strategy k w.uuids w.clock))

promote-retired :
    (i j : ℕ) (d : PromotionDecision) (approved_by : Text) (human_confirmed : Bool)
    (t : PromotionThresholds) (w : World)
    → status i w ≡ some retired
    → status i (promote j d approved_by human_confirmed t w).1 ≡ some retired
unfolding promote status
promote-retired i j d approved_by human_confirmed t w h =
    let next = with_promotion j d approved_by t w in
    ground (arith, set_status-retired i j live_status [] next h)

call-retired :
    (i : ℕ) (c : LifecycleCall) (w : World)
    → status i w ≡ some retired
    → status i (after_call c w) ≡ some retired
call-retired i (registers k) w h = register-retired i k w h
call-retired i (sets_status j s reason) w h = set_status-retired i j s reason w h
call-retired i (supervises detail j x rate t) w h = supervise-retired detail i j x rate t w h
call-retired i (promotes j d approved_by human_confirmed t) w h =
    promote-retired i j d approved_by human_confirmed t w h

-- RETIRED is terminal: no sequence of calls of the registry, the supervisor and the promotion gate takes
-- a strategy out of it.
pub retired_is_terminal :
    (i : ℕ) (cs : List LifecycleCall) (w : World)
    → status i w ≡ some retired
    → status i (after_lifecycle cs w) ≡ some retired
retired_is_terminal i [] w h = h
retired_is_terminal i (c ∷ cs) w h =
    retired_is_terminal i cs (after_call c w) (call-retired i c w h)
