-- ===== src/Promotion.antt =====
-- src/atlas/promotion/gate.py, `PromotionGate`: the recorded human approval that moves a strategy to
-- live capital. `evaluate_promotion`, which makes the decision, is not modelled: the decision is an
-- argument of `promote`, as it is in the code.
pub mod Approval
pub mod Lifecycle
use atlas_ai_trading.Decimal.{Decimal, one}
use atlas_ai_trading.Prelude.{
  Bool, List, Option, [], if◌then◌else◌, leb, ltb, none, not, some, ℕ, ◌++◌, ◌==◌, ◌∷◌,
}
use atlas_ai_trading.Prelude.Text.{Text, is_blank}
use atlas_ai_trading.Registry.{is_status, set_status, status}
use atlas_ai_trading.World.{
  Action, Promotion, World, gets, incubating, live_status, log, modify, promotion_approved,
  promotion_refused, pure, raise_if, strategy_named, uuid4, ◌>>=◌, ◌>>◌,
}

pub record PromotionThresholds : Type 0 where
  pub max_correlation : Decimal
  pub initial_risk_multiplier : Decimal
  pub reduced_risk_trades : ℕ

pub record PromotionDecision : Type 0 where
  pub eligible : Bool
  pub reasons : List Text
  pub max_observed_correlation : Decimal

abbrev pub new_promotion : ℕ → PromotionDecision → Text → Decimal → ℕ → ℕ → Promotion
new_promotion strategy_id d approved_by multiplier id now = record {
  id = id;
  strategy_id = strategy_id;
  approved_by = approved_by;
  approved_at = now;
  reasons = d.reasons;
  initial_risk_multiplier = multiplier;
}

unfoldable pub promote :
    ℕ
    → PromotionDecision
    → (approved_by : Text) → (human_confirmed : Bool) → PromotionThresholds
    → Action ℕ
promote i d approved_by human_confirmed t = do
  raise_if (not human_confirmed) promotion_refused
  raise_if (is_blank approved_by) promotion_refused
  current ← gets (status i)
  raise_if (not (is_status current incubating)) promotion_refused
  raise_if (not d.eligible) promotion_refused
  id ← uuid4
  modify λ w. record w {
    promotions =
        w.promotions ++ new_promotion i d approved_by t.initial_risk_multiplier id w.clock ∷ [];
  }
  set_status i live_status []
  log promotion_approved (strategy_named i) approved_by
  pure id

-- `ORDER BY approved_at DESC LIMIT 1`, the first inserted of several that have one time.
abbrev later : Promotion → Option Promotion → Promotion
later p none = p
later p (some q) = if ltb p.approved_at q.approved_at then q else p

latest : ℕ → List Promotion → Option Promotion
latest i [] = none
latest i (p ∷ ps) =
    let rest = latest i ps in if p.strategy_id == i then some (later p rest) else rest

-- PROM-03: a newly promoted strategy trades with less.
abbrev multiplier_of : Option Promotion → ℕ → PromotionThresholds → Decimal
multiplier_of none completed t = one
multiplier_of (some p) completed t =
    if leb t.reduced_risk_trades completed then one else p.initial_risk_multiplier

unfoldable pub risk_multiplier_for : ℕ → ℕ → PromotionThresholds → World → Decimal
unfolding latest
risk_multiplier_for i completed t w = multiplier_of (latest i w.promotions) completed t
