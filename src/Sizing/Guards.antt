-- ===== src/Sizing/Guards.antt =====
-- What `size_position` accepts and refuses.
use atlas_ai_trading.Decimal.{Decimal, min_of, nought, ◌⊗◌, ◌≺◌, ◌≼◌}
use atlas_ai_trading.Decimal.Order.{le_trans, min_of-le_left, min_of-le_right}
use atlas_ai_trading.Prelude.{arith, false, some, true, ◌<◌, ◌≡◌}
use atlas_ai_trading.Sizing.{
  SizingRequest, SizingResult, check_quantity, deployed_headroom, intended_notional,
  levels_are_invalid, notional_cap, size_at_distance, size_position,
}

-- What holds of an accepted size.
pub record IsGuarded (q : SizingRequest) (r : SizingResult) : Type 0 where
  pub levels_valid : levels_are_invalid q ≡ false
  pub room : q.num_open < q.policy.max_concurrent
  pub cash : (q.free_cash ≼ nought) ≡ false
  pub headroom : (deployed_headroom q ≼ nought) ≡ false
  pub positive : (r.quantity ≼ nought) ≡ false
  pub at_least_min_qty : (r.quantity ≺ q.filters.min_qty) ≡ false
  pub valued : r.notional ≡ r.quantity ⊗ q.entry_price
  pub at_least_min_notional : (r.notional ≺ q.filters.min_notional) ≡ false

-- A size is refused with a reason and for nothing, and accepted without a reason.
pub size_position-refuses :
    (q : SizingRequest) (r : SizingResult)
    → size_position q ≡ some r
    → r.accepted ≡ false
    → (r.quantity ≡ nought) × (r.notional ≡ nought) × (r.risk_amount ≡ nought)
unfolding size_position size_at_distance check_quantity
size_position-refuses q r e h = ground arith

-- What is to be spent, before the rounding to the step, is within each of its four bounds: the amount at
-- which the stop loses the risk budget, the cap on a position, the free cash, and the headroom.
pub intended_notional-bounded :
    (q : SizingRequest) (by_risk : Decimal)
    → ((intended_notional q by_risk ≼ by_risk) ≡ true)
      × ((intended_notional q by_risk ≼ notional_cap q) ≡ true)
      × ((intended_notional q by_risk ≼ q.free_cash) ≡ true)
      × ((intended_notional q by_risk ≼ deployed_headroom q) ≡ true)
unfolding intended_notional
intended_notional-bounded q by_risk =
    let two = min_of by_risk (notional_cap q) in
    let three = min_of two q.free_cash in
    let headroom = deployed_headroom q in
    let below = min_of-le_left three headroom in
    let below_two = le_trans _ _ two below (min_of-le_left two q.free_cash) in
    (
      le_trans _ _ _ below_two (min_of-le_left by_risk (notional_cap q)),
      le_trans _ _ _ below_two (min_of-le_right by_risk (notional_cap q)),
      le_trans _ _ _ below (min_of-le_right two q.free_cash),
      min_of-le_right three headroom,
    )
