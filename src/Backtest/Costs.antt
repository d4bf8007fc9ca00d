-- ===== src/Backtest/Costs.antt =====
-- src/atlas/backtest/costs.py: fees and slippage.
use atlas_ai_trading.Decimal.{Decimal, of_ℕ, one, ◌⊕◌, ◌⊖◌, ◌⊗◌}
use atlas_ai_trading.Prelude.{Bool, if◌then◌else◌, not}
use atlas_ai_trading.World.{PositionSide, long, short}

pub record CostModel : Type 0 where
  pub fee_rate : Decimal
  pub slippage_rate : Decimal

-- `round_trip_rate`, `fee_on` and `fill_price`
unfoldable pub round_trip_rate : CostModel → Decimal
round_trip_rate c = (c.fee_rate ⊕ c.slippage_rate) ⊗ of_ℕ 2

unfoldable pub fee_on : CostModel → Decimal → Decimal
fee_on c notional = notional ⊗ c.fee_rate

abbrev is_buying : PositionSide → (entering : Bool) → Bool
is_buying long entering = entering
is_buying short entering = not entering

unfoldable pub fill_price_at : CostModel → Decimal → PositionSide → (entering : Bool) → Decimal
fill_price_at c quoted side entering =
    quoted ⊗ (if is_buying side entering then one ⊕ c.slippage_rate else one ⊖ c.slippage_rate)
