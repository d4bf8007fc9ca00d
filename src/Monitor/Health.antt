-- ===== src/Monitor/Health.antt =====
-- src/atlas/monitor/health.py: a strategy's live results in numbers.
use atlas_ai_trading.Decimal.{Decimal, abs, nought, of_ℕ, sqrt, sum, ◌≺◌, ◌≼◌, ◌⊖◌, ◌⊗◌}
use atlas_ai_trading.Indicators.{over}
use atlas_ai_trading.Monitor.{MonitorThresholds, StrategyHealth}
use atlas_ai_trading.Prelude.{
  Bool, List, [], if◌then◌else◌, keep, length, map, reversed, take_last, ℕ, ◌+◌, ◌∷◌,
}
use atlas_ai_trading.Regime.{positive_quotient}

abbrev pub is_win_of : Decimal → Bool
is_win_of r = nought ≺ r

abbrev pub is_loss_of : Decimal → Bool
is_loss_of r = r ≼ nought

-- `_sqrt`
unfoldable pub root_or_nought : Decimal → Decimal
root_or_nought a = if nought ≺ a then sqrt a else nought

-- Gross gains by gross losses; many where nothing was lost.
unfoldable pub profit_factor_of : (gross_win gross_loss : Decimal) → Decimal
profit_factor_of gross_win gross_loss =
    if nought ≺ gross_loss
    then positive_quotient gross_win gross_loss
    else if nought ≺ gross_win
    then of_ℕ 999
    else nought

-- The losses at the end, of returns in reverse.
leading_losses : List Decimal → ℕ
leading_losses [] = 0
leading_losses (r ∷ rs) = let rest = leading_losses rs in if is_loss_of r then rest + 1 else 0

unfoldable pub loss_streak : List Decimal → ℕ
unfolding leading_losses
loss_streak rs = leading_losses (reversed rs)

abbrev share_of : ℕ → List Decimal → Decimal
share_of n [] = nought
share_of n (r ∷ rs) = over (of_ℕ n) (length (r ∷ rs))

unfoldable pub compute_health :
    List Decimal
    → (backtest_mean_return backtest_return_sigma : Decimal) → (bars_since_last_signal : ℕ)
    → (mean_inter_trade_bars : Decimal) → MonitorThresholds
    → StrategyHealth
unfolding root_or_nought profit_factor_of loss_streak
compute_health rs mean sigma since inter t =
    let n = length rs in
    let recent = take_last t.window rs in
    let wins = keep is_win_of recent in
    record {
      trade_count = n;
      rolling_win_rate = share_of (length wins) recent;
      rolling_profit_factor = profit_factor_of (sum wins) (abs (sum (keep is_loss_of recent)));
      consecutive_losses = loss_streak rs;
      realised_equity = sum rs;
      expected_equity = mean ⊗ of_ℕ n;
      equity_sigma = sigma ⊗ root_or_nought (of_ℕ n);
      bars_since_last_signal = since;
      mean_inter_trade_bars = inter;
    }

-- `return_distribution`: the mean and the deviation of a series of returns.
unfoldable pub return_distribution : List Decimal → Decimal × Decimal
unfolding root_or_nought
return_distribution [] = (nought, nought)
return_distribution (r ∷ rs) =
    let n = length (r ∷ rs) in
    let mean = over (sum (r ∷ rs)) n in
    (mean, root_or_nought (over (sum (map (λ (x : Decimal). (x ⊖ mean) ⊗ (x ⊖ mean)) (r ∷ rs))) n))
