-- ===== src/Backtest/Stats.antt =====
-- src/atlas/backtest/stats.py and `_buy_and_hold_return` of engine.py: the result of a backtest in
-- numbers.
pub mod Drawdown
use atlas_ai_trading.Backtest.Costs.{CostModel, round_trip_rate}
use atlas_ai_trading.Backtest.Exits.{Trade, bars_held, is_win}
use atlas_ai_trading.Decimal.{Decimal, abs, max_of, nought, of_ℕ, sum, ◌≺◌, ◌≼◌, ◌⊖◌}
use atlas_ai_trading.Indicators.{over}
use atlas_ai_trading.Market.{Kline}
use atlas_ai_trading.Monitor.Health.{profit_factor_of}
use atlas_ai_trading.Prelude.{
  Bool, List, [], if◌then◌else◌, keep, length, map, suc, zero, ℕ, ◌+◌, ◌∷◌,
}
use atlas_ai_trading.Regime.{positive_quotient}

pub record Stats : Type 0 where
  pub num_trades : ℕ
  pub num_wins : ℕ
  pub num_losses : ℕ
  pub win_rate : Decimal
  pub net_return : Decimal
  pub profit_factor : Decimal
  pub expectancy : Decimal
  pub max_drawdown : Decimal
  pub avg_bars_held : Decimal
  pub gross_profit : Decimal
  pub gross_loss : Decimal
  pub total_fees : Decimal
  pub final_equity : Decimal
  pub hold_return : Decimal
  pub beats_hold : Bool
  pub capped_count : ℕ

-- The worst decline so far, from the peak so far, over the values that are left.
unfoldable pub drawdown_from : (peak worst : Decimal) → List Decimal → Decimal
drawdown_from peak worst [] = worst
drawdown_from peak worst (v ∷ vs) =
    let high_mark = max_of peak v in
    drawdown_from high_mark
      (if nought ≺ high_mark
        then max_of worst (positive_quotient (high_mark ⊖ v) high_mark)
        else worst)
      vs

-- `max_drawdown`
unfoldable pub worst_drawdown_of : List Decimal → Decimal
unfolding drawdown_from
worst_drawdown_of [] = nought
worst_drawdown_of (v ∷ vs) = drawdown_from v nought (v ∷ vs)

abbrev mean_of : Decimal → ℕ → Decimal
mean_of total zero = nought
mean_of total (suc n) = over total (suc n)

abbrev last_or : Decimal → List Decimal → Decimal
last_or d [] = d
last_or d (x ∷ []) = x
last_or d (x ∷ y ∷ xs) = last_or d (y ∷ xs)

abbrev num_bars_of : List Trade → ℕ
num_bars_of [] = 0
num_bars_of (t ∷ ts) = bars_held t + num_bars_of ts

unfoldable pub compute_stats :
    List Trade → (equity_curve : List Decimal) → (starting_equity hold_return : Decimal) → Stats
unfolding worst_drawdown_of is_win bars_held profit_factor_of
compute_stats ts equity_curve starting_equity hold_return =
    let pnl = λ (t : Trade). t.net_pnl in
    let wins = keep is_win ts in
    let losses = keep (λ (t : Trade). t.net_pnl ≼ nought) ts in
    let profit = sum (map pnl wins) in
    let loss = abs (sum (map pnl losses)) in
    let end = last_or starting_equity equity_curve in
    let n = length ts in
    let net =
      if nought ≺ starting_equity
      then positive_quotient (end ⊖ starting_equity) starting_equity
      else nought in
    record {
      num_trades = n;
      num_wins = length wins;
      num_losses = length losses;
      win_rate = mean_of (of_ℕ (length wins)) n;
      net_return = net;
      profit_factor = profit_factor_of profit loss;
      expectancy = mean_of (sum (map pnl ts)) n;
      max_drawdown = worst_drawdown_of equity_curve;
      avg_bars_held = mean_of (of_ℕ (num_bars_of ts)) n;
      gross_profit = profit;
      gross_loss = loss;
      total_fees = sum (map (λ (t : Trade). t.fees) ts);
      final_equity = end;
      hold_return = hold_return;
      beats_hold = hold_return ≺ net;
      capped_count = length (keep (λ (t : Trade). t.was_capped) ts);
    }

-- `_buy_and_hold_return`
return_between : CostModel → Decimal → Decimal → Decimal
return_between c first_close last_close =
    if first_close ≼ nought
    then nought
    else positive_quotient (last_close ⊖ first_close) first_close ⊖ round_trip_rate c

close_after : Kline → List Kline → Decimal
close_after k [] = k.close
close_after k (l ∷ ks) = close_after l ks

unfoldable pub buy_and_hold_return : List Kline → CostModel → Decimal
unfolding return_between close_after
buy_and_hold_return [] c = nought
buy_and_hold_return (k ∷ []) c = nought
buy_and_hold_return (k ∷ l ∷ ks) c = return_between c k.close (close_after l ks)
