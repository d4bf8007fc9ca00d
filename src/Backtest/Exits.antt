-- ===== src/Backtest/Exits.antt =====
-- src/atlas/backtest/trade.py, and `_resolve_exit` and `_close` of engine.py: positions and trades.
use atlas_ai_trading.Backtest.Costs.{CostModel, fee_on, fill_price_at}
use atlas_ai_trading.Decimal.{Decimal, decimal, nought, one, ◌≺◌, ◌≼◌, ◌⊕◌, ◌⊖◌, ◌⊗◌}
use atlas_ai_trading.Market.{Kline}
use atlas_ai_trading.Prelude.{
  Bool, Option, false, if◌then◌else◌, leb, none, some, ℕ, ◌+◌, ◌-◌, ◌==◌,
}
use atlas_ai_trading.Prelude.Int.{negsuc}
use atlas_ai_trading.World.{PositionSide, long, short}

pub data ExitReason : Type 0 where
  exit_stop exit_target exit_time exit_end_of_data : ExitReason

pub record Trade : Type 0 where
  pub entry_index : ℕ
  pub exit_index : ℕ
  pub entry_time : ℕ
  pub exit_time : ℕ
  pub side : PositionSide
  pub quantity : Decimal
  pub entry_price : Decimal
  pub exit_price : Decimal
  pub stop_price : Decimal
  pub target_price : Decimal
  pub gross_pnl : Decimal
  pub fees : Decimal
  pub net_pnl : Decimal
  pub exit_reason : ExitReason
  pub was_capped : Bool

-- `Trade.bars_held` and `Trade.is_win`
unfoldable pub bars_held : Trade → ℕ
bars_held t = t.exit_index - t.entry_index

unfoldable pub is_win : Trade → Bool
is_win t = nought ≺ t.net_pnl

-- `_OpenPosition`
pub record OpenPosition : Type 0 where
  pub entry_index : ℕ
  pub side : PositionSide
  pub quantity : Decimal
  pub entry_price : Decimal
  pub stop_price : Decimal
  pub target_price : Decimal
  pub entry_fee : Decimal
  pub was_capped : Bool

-- What a bar touches: `hit_stop` and `hit_target`.
abbrev pub touches_stop : PositionSide → Decimal → Kline → Bool
touches_stop long stop_level k = k.low ≼ stop_level
touches_stop short stop_level k = stop_level ≼ k.high

abbrev pub touches_target : PositionSide → Decimal → Kline → Bool
touches_target long target_level k = target_level ≼ k.high
touches_target short target_level k = k.low ≼ target_level

-- `_resolve_exit`
unfoldable pub resolve_exit : OpenPosition → Kline → ℕ → ℕ → Option (Decimal × ExitReason)
resolve_exit p k index max_bars =
    if index == p.entry_index
    then none
    else if touches_stop p.side p.stop_price k
    then some (p.stop_price, exit_stop)
    else if touches_target p.side p.target_price k
    then some (p.target_price, exit_target)
    else if leb (p.entry_index + max_bars) index
    then some (k.close, exit_time)
    else none

abbrev pub direction : PositionSide → Decimal
direction long = one
direction short = decimal (negsuc 0) 0

-- The price of a stop or a target has no slippage.
abbrev exit_price_of : CostModel → PositionSide → ExitReason → Decimal → Decimal
exit_price_of c side exit_stop raw = raw
exit_price_of c side exit_target raw = raw
exit_price_of c side exit_time raw = fill_price_at c raw side false
exit_price_of c side exit_end_of_data raw = fill_price_at c raw side false

-- `_close`: the trade, and the fee of its exit. The time of entry is that of the exit's bar.
unfoldable pub close_trade :
    CostModel → OpenPosition → ℕ → Kline → Decimal → ExitReason → Trade × Decimal
unfolding fill_price_at fee_on
close_trade c p index k raw reason =
    let exit = exit_price_of c p.side reason raw in
    let gross = (exit ⊖ p.entry_price) ⊗ p.quantity ⊗ direction p.side in
    let exit_fee = fee_on c (exit ⊗ p.quantity) in
    (
      record {
        entry_index = p.entry_index;
        exit_index = index;
        entry_time = k.open_time;
        exit_time = k.close_time;
        side = p.side;
        quantity = p.quantity;
        entry_price = p.entry_price;
        exit_price = exit;
        stop_price = p.stop_price;
        target_price = p.target_price;
        gross_pnl = gross;
        fees = p.entry_fee ⊕ exit_fee;
        net_pnl = gross ⊖ p.entry_fee ⊖ exit_fee;
        exit_reason = reason;
        was_capped = p.was_capped;
      },
      exit_fee,
    )
