-- ===== src/Sizing.antt =====
-- src/atlas/risk/sizing.py: the size of one position, or the reason why it is refused; and
-- `parse_symbol_filters` of src/atlas/risk/filters.py, from which its filters come. `none` is the
-- exception of a division by zero.
pub mod Guards
use atlas_ai_trading.Decimal.{
  Decimal, abs, div, min_of, nought, one, round_up, truncate, ◌⊗◌, ◌⊖◌, ◌≺◌, ◌≼◌,
}
use atlas_ai_trading.Prelude.{
  Bool, Option, and_then, false, if◌then◌else◌, leb, some, true, ℕ, ◌||◌,
}
use atlas_ai_trading.World.{PositionSide, long, short}

pub data RejectReason : Type 0 where
  no_reason invalid_levels filters_unavailable below_min_notional below_min_qty : RejectReason
  no_free_cash max_concurrent_reached max_deployed zero_quantity : RejectReason

pub record ExchangeFilters : Type 0 where
  pub step_size : Decimal
  pub min_qty : Decimal
  pub min_notional : Decimal
  pub tick_size : Decimal

-- `floor_quantity`
unfoldable pub floor_quantity : ExchangeFilters → Decimal → Option Decimal
floor_quantity f quantity =
    if f.step_size ≼ nought
    then some quantity
    else and_then (div quantity f.step_size) (λ n. some (truncate n ⊗ f.step_size))

-- `round_price`
unfoldable pub round_price : ExchangeFilters → Decimal → Option Decimal
round_price f price =
    if f.tick_size ≼ nought
    then some price
    else and_then (div price f.tick_size) (λ n. some (truncate n ⊗ f.tick_size))

-- `round_price_toward`
unfoldable pub round_price_toward : ExchangeFilters → Decimal → Decimal → Option Decimal
round_price_toward f price reference =
    if f.tick_size ≼ nought
    then some price
    else if reference ≺ price
    then and_then (div price f.tick_size) (λ n. some (truncate n ⊗ f.tick_size))
    else and_then (div price f.tick_size) (λ n. some (round_up n ⊗ f.tick_size))

pub record SizingPolicy : Type 0 where
  pub risk_pct : Decimal
  pub max_position_pct : Decimal
  pub max_deployed_pct : Decimal
  pub max_concurrent : ℕ

-- `min_feasible_stop_distance`, `max_feasible_stop_distance` and `feasible_stop_band`
unfoldable pub min_feasible_stop_distance : SizingPolicy → Option Decimal
min_feasible_stop_distance p = div p.risk_pct p.max_position_pct

unfoldable pub max_feasible_stop_distance : SizingPolicy → Decimal → Decimal → Option Decimal
max_feasible_stop_distance p equity min_notional =
    if min_notional ≼ nought then some one else div (equity ⊗ p.risk_pct) min_notional

unfoldable pub feasible_stop_band :
    Decimal → SizingPolicy → ExchangeFilters → Option Decimal × Option Decimal
feasible_stop_band equity p f =
    (min_feasible_stop_distance p, max_feasible_stop_distance p equity f.min_notional)

pub record SizingResult : Type 0 where
  pub accepted : Bool
  pub quantity : Decimal
  pub notional : Decimal
  pub risk_amount : Decimal
  pub reason : RejectReason
  pub capped : Bool

abbrev pub reject : RejectReason → SizingResult
reject r = record {
  accepted = false;
  quantity = nought;
  notional = nought;
  risk_amount = nought;
  reason = r;
  capped = false;
}

-- The arguments of `size_position`.
pub record SizingRequest : Type 0 where
  pub equity : Decimal
  pub free_cash : Decimal
  pub entry_price : Decimal
  pub stop_price : Decimal
  pub side : PositionSide
  pub policy : SizingPolicy
  pub filters : ExchangeFilters
  pub num_open : ℕ
  pub deployed : Decimal
  pub risk_multiplier : Decimal

-- A stop on the side of the entry where it stops a loss.
abbrev pub stop_is_wrong : PositionSide → Decimal → Decimal → Bool
stop_is_wrong long stop_price entry_price = entry_price ≼ stop_price
stop_is_wrong short stop_price entry_price = stop_price ≼ entry_price

unfoldable pub stop_distance : SizingRequest → Option Decimal
stop_distance q = div (abs (q.entry_price ⊖ q.stop_price)) q.entry_price

unfoldable pub notional_by_risk : SizingRequest → Decimal → Option Decimal
notional_by_risk q distance = div (q.equity ⊗ q.policy.risk_pct ⊗ q.risk_multiplier) distance

unfoldable pub notional_cap : SizingRequest → Decimal
notional_cap q = q.equity ⊗ q.policy.max_position_pct

unfoldable pub deployed_headroom : SizingRequest → Decimal
deployed_headroom q = q.equity ⊗ q.policy.max_deployed_pct ⊖ q.deployed

-- `min(notional_by_risk, notional_cap, free_cash, deployed_headroom)`
unfoldable pub intended_notional : SizingRequest → Decimal → Decimal
intended_notional q by_risk =
    min_of (min_of (min_of by_risk (notional_cap q)) q.free_cash) (deployed_headroom q)

-- The checks on the quantity, which was rounded down to the step of the exchange.
unfoldable pub check_quantity : SizingRequest → (distance by_risk quantity : Decimal) → SizingResult
check_quantity q distance by_risk quantity =
    let actual = quantity ⊗ q.entry_price in
    if quantity ≼ nought
    then reject zero_quantity
    else if quantity ≺ q.filters.min_qty
    then reject below_min_qty
    else if actual ≺ q.filters.min_notional
    then reject below_min_notional
    else record {
      accepted = true;
      quantity = quantity;
      notional = actual;
      risk_amount = actual ⊗ distance;
      reason = no_reason;
      capped = intended_notional q by_risk ≺ by_risk;
    }

-- From the distance of the stop on.
unfoldable pub size_at_distance : SizingRequest → Decimal → Option SizingResult
size_at_distance q distance = and_then (notional_by_risk q distance) λ by_risk.
    if deployed_headroom q ≼ nought
    then some (reject max_deployed)
    else and_then (div (intended_notional q by_risk) q.entry_price) λ raw.
      and_then (floor_quantity q.filters raw)
        λ quantity. some (check_quantity q distance by_risk quantity)

abbrev pub levels_are_invalid : SizingRequest → Bool
levels_are_invalid q =
    (q.entry_price ≼ nought)
    || (q.stop_price ≼ nought)
    || (q.equity ≼ nought)
    || stop_is_wrong q.side q.stop_price q.entry_price

unfoldable pub size_position : SizingRequest → Option SizingResult
size_position q =
    if levels_are_invalid q
    then some (reject invalid_levels)
    else if leb q.policy.max_concurrent q.num_open
    then some (reject max_concurrent_reached)
    else if q.free_cash ≼ nought
    then some (reject no_free_cash)
    else and_then (stop_distance q) (size_at_distance q)
