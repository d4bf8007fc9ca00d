-- ===== src/Trading/Exposure.antt =====
-- What arming, reconciling, supervising and logging leave alone.
use atlas_ai_trading.Decimal.{Decimal}
use atlas_ai_trading.KillSwitch.{arm}
use atlas_ai_trading.Monitor.{
  MonitorThresholds, RuleVerdict, StrategyHealth, act, apply_action, supervise,
}
use atlas_ai_trading.Prelude.{
  Bool-cases, List, Option, [], arith, inl, inr, none, refl, some, ℕ, ◌∷◌,
}
use atlas_ai_trading.Prelude.Text.{Text}
use atlas_ai_trading.Reconcile.{RemoteOrder, is_clean, reconcile, reconcile_actor}
use atlas_ai_trading.Reconcile.Arming.{
  reason_of, reconcile_clean, reconcile_world, repaired_world, the_report,
}
use atlas_ai_trading.Registry.{list_by_status, set_status}
use atlas_ai_trading.Trading.{
  Inputs, Service, cons_if, is_retiring, supervise_all, supervise_at, supervise_each, supervise_one,
}
use atlas_ai_trading.World.{
  Action, AuditEventType, Keeps, KillSwitchTrigger, Payload, Position, Sent, World, bind-Keeps,
  live_status, log, pure, reconciliation_failure, ◌>>=◌,
}

-- What a tick must leave alone: the orders that were sent, and the positions.
abbrev pub exposure : World → List Sent × List Position
exposure w = (w.sent, w.positions)

pub arm-exposure :
    (trigger : KillSwitchTrigger) (reason actor : Text) → Keeps exposure (arm trigger reason actor)
unfolding arm
arm-exposure trigger reason actor w = ground arith

pub log-exposure :
    (e : AuditEventType) (p : Payload) (actor : Text) → Keeps exposure (log e p actor)
log-exposure e p actor w = refl

pub reconcile-exposure : (xs : List RemoteOrder) → Keeps exposure (reconcile xs)
reconcile-exposure xs w = elim (Bool-cases (is_clean (the_report xs w))) [
  | inl c ↦ rw (reconcile_clean xs w c) refl
  | inr c ↦
      rw (reconcile_world xs w c)
        (arm-exposure reconciliation_failure (reason_of xs w) reconcile_actor (repaired_world xs w))
]

supervise-exposure :
    (detail : RuleVerdict → Text) (i : ℕ) (h : StrategyHealth) (win_rate : Decimal)
    (m : MonitorThresholds)
    → Keeps exposure (supervise detail i h win_rate m)
unfolding supervise apply_action act set_status
supervise-exposure detail i h win_rate m w = ground arith

module _ (v : Service) (t : Inputs) where
  supervise_at-exposure :
      (i : ℕ) (baseline : Option (Decimal × Decimal × Decimal)) (others : Action (List ℕ))
      → Keeps exposure others
      → Keeps exposure (supervise_at v t i baseline others)
  unfolding supervise_at supervise_one
  supervise_at-exposure i none others h = h
  supervise_at-exposure i (some baseline) others h =
      bind-Keeps exposure (supervise_one v t i baseline)
        (λ s. others >>= λ gone. pure (cons_if (is_retiring s.action_taken) i gone))
        (supervise-exposure v.verdict_text i _ _ v.monitor)
        (λ s.
          bind-Keeps exposure others (λ gone. pure (cons_if (is_retiring s.action_taken) i gone)) h
            (λ gone w. refl))

  supervise_each-exposure : (is : List ℕ) → Keeps exposure (supervise_each v t is)
  unfolding supervise_each
  supervise_each-exposure [] = λ w. refl
  supervise_each-exposure (i ∷ is) =
      supervise_at-exposure i (t.backtest_stats i) (supervise_each v t is)
        (supervise_each-exposure is)

  pub supervise_all-exposure : Keeps exposure (supervise_all v t)
  unfolding supervise_all
  supervise_all-exposure w = supervise_each-exposure (list_by_status live_status w) w
