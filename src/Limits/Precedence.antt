-- ===== src/Limits/Precedence.antt =====
-- When the account's limits arm the kill switch, `check_portfolio_limits`.
use native.Mathlib.Nat.{zero-mul}
use atlas_ai_trading.Decimal.{Decimal, decimal, div, nought, ◌⊖◌, ◌≼◌}
use atlas_ai_trading.Limits.{
  AccountState, PortfolioLimits, check_portfolio_limits, daily_loss, drawdown_from_peak, loss_from,
}
use atlas_ai_trading.Prelude.{
  Bool, Option, arith, false, if◌then◌else◌, is_some, max, none, refl, some, true, ℕ, ◌-◌, ◌==◌,
  ◌^◌, ◌≡◌,
}
use atlas_ai_trading.Prelude.Int.{magnitude, negsuc, pos, ℤ}
use atlas_ai_trading.World.{daily_loss_limit, max_account_dd}

-- A positive decimal is not 0.
nonzero : (c : ℤ) (s : ℕ) → (decimal c s ≼ nought) ≡ false → (magnitude c == 0) ≡ false
unfolding ◌≼◌
nonzero (pos n) s h = ground (arith, zero-mul (10 ^ (max s 0 - s)))
nonzero (negsuc n) s h = ground arith

div-some : (a b : Decimal) → (b ≼ nought) ≡ false → is_some (div a b) ≡ true
unfolding div
div-some a b h = rw (nonzero b.coeff b.scale h) refl

loss_from-some : (reference equity : Decimal) → is_some (loss_from reference equity) ≡ true
unfolding loss_from
loss_from-some reference equity = ground (arith, div-some (reference ⊖ equity) reference)

-- `amount` of an optional decimal that is there reaches a bound.
abbrev pub reaches : Option Decimal → Decimal → Bool
reaches none bound = false
reaches (some d) bound = bound ≼ d

-- The check always answers. It names the drawdown if that reaches its limit, else the daily loss if that
-- reaches its own, and else nothing.
pub check_portfolio_limits_lem :
    (a : AccountState) (bounds : PortfolioLimits)
    → check_portfolio_limits a bounds
      ≡ some (
          if reaches (drawdown_from_peak a) bounds.max_account_drawdown
          then some max_account_dd
          else if reaches (daily_loss a) bounds.daily_loss_limit
          then some daily_loss_limit
          else none)
unfolding check_portfolio_limits drawdown_from_peak daily_loss
check_portfolio_limits_lem a bounds =
    ground
      (arith, loss_from-some a.peak_equity a.equity, loss_from-some a.day_start_equity a.equity)
