-- ===== src/Promotion/Approval.antt =====
-- When `PromotionGate.promote` promotes.
use atlas_ai_trading.Prelude.{Bool, [], arith, false, not, some, true, ℕ, ◌&&◌, ◌++◌, ◌+◌, ◌∷◌, ◌≡◌}
use atlas_ai_trading.Prelude.Text.{Text, is_blank}
use atlas_ai_trading.Promotion.{PromotionDecision, PromotionThresholds, new_promotion, promote}
use atlas_ai_trading.Registry.{is_status, set_status, status}
use atlas_ai_trading.Registry.Rows.{find-set}
use atlas_ai_trading.World.{World, incubating, live_status, ok, promotion_refused, raised}

-- The conditions of a promotion.
abbrev pub may_promote : ℕ → PromotionDecision → Text → Bool → World → Bool
may_promote i d approved_by human_confirmed w =
    human_confirmed && not (is_blank approved_by) && is_status (status i w) incubating && d.eligible

-- The state in which the status is set.
abbrev pub with_promotion : ℕ → PromotionDecision → Text → PromotionThresholds → World → World
with_promotion i d approved_by t w = record w {
  uuids = w.uuids + 1;
  promotions =
      w.promotions ++ new_promotion i d approved_by t.initial_risk_multiplier w.uuids w.clock ∷ [];
}

-- An incubating strategy that is eligible, and that a named person confirms, becomes LIVE, and the
-- approval is recorded with the multiplier of its first trades.
pub promote-approves :
    (i : ℕ) (d : PromotionDecision) (approved_by : Text) (human_confirmed : Bool)
    (t : PromotionThresholds) (w : World)
    → may_promote i d approved_by human_confirmed w ≡ true
    → let (r, w') = promote i d approved_by human_confirmed t w in
      (r ≡ ok w.uuids)
      × (status i w' ≡ some live_status)
      × (w'.promotions ≡ (with_promotion i d approved_by t w).promotions)
unfolding promote status set_status
promote-approves i d approved_by human_confirmed t w h =
    ground (arith, find-set i i live_status [] w.clock w.strategies)

-- Without any one of these conditions the promotion is refused, and nothing changes.
pub promote_refused :
    (i : ℕ) (d : PromotionDecision) (approved_by : Text) (human_confirmed : Bool)
    (t : PromotionThresholds) (w : World)
    → may_promote i d approved_by human_confirmed w ≡ false
    → promote i d approved_by human_confirmed t w ≡ (raised promotion_refused, w)
unfolding promote
promote_refused i d approved_by human_confirmed t w h = ground arith
