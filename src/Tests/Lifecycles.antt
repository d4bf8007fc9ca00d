-- ===== src/Tests/Lifecycles.antt =====
-- The registry, the supervisor and the promotion gate on concrete strategies.
use atlas_ai_trading.Decimal.{decimal, nought, of_ℕ, one, ◌≺◌}
use atlas_ai_trading.Monitor.{
  MonitorThresholds, RuleVerdict, StrategyHealth, consecutive_loss_streak, equity_band_breach,
  profit_factor_collapse, supervise, win_rate_collapse,
}
use atlas_ai_trading.Monitor.Severity.{supervise-status}
use atlas_ai_trading.Prelude.{List, [], false, refl, some, true, ◌∷◌, ◌≡◌}
use atlas_ai_trading.Prelude.Int.{pos}
use atlas_ai_trading.Prelude.Text.{Text, is_blank, text}
use atlas_ai_trading.Promotion.{PromotionDecision, PromotionThresholds}
use atlas_ai_trading.Promotion.Approval.{may_promote}
use atlas_ai_trading.Promotion.Lifecycle.{
  LifecycleCall, after_lifecycle, promotes, registers, retired_is_terminal, sets_status, supervises,
}
use atlas_ai_trading.Registry.{SpecKey, status}
use atlas_ai_trading.Tests.Fixtures.{calm, operator, world_with}
use atlas_ai_trading.World.{World, disarmed, incubating, live_status, retired, suspended}

abbrev retired_world : World
retired_world = world_with disarmed retired []

abbrev incubating_world : World
incubating_world = world_with disarmed incubating []

abbrev no_detail : RuleVerdict → Text
no_detail v = []

-- Eight losses in a row, nothing else.
abbrev losing : StrategyHealth
losing = record {
  trade_count = 8;
  rolling_win_rate = one;
  rolling_profit_factor = one;
  consecutive_losses = 8;
  realised_equity = of_ℕ 90;
  expected_equity = of_ℕ 100;
  equity_sigma = nought;
  bars_since_last_signal = 0;
  mean_inter_trade_bars = nought;
}

abbrev thresholds : MonitorThresholds
thresholds = record {
  window = 30;
  band_sigma = of_ℕ 2;
  win_rate_retention = decimal (pos 60) 2;
  min_profit_factor = one;
  max_consecutive_losses = 8;
  starvation_multiple = of_ℕ 3;
}

abbrev eligible_decision : PromotionDecision
eligible_decision = record { eligible = true; reasons = []; max_observed_correlation = nought }

abbrev half_risk : PromotionThresholds
half_risk = record {
  max_correlation = decimal (pos 6) 1;
  initial_risk_multiplier = decimal (pos 5) 1;
  reduced_risk_trades = 20;
}

abbrev spec : SpecKey
spec = record { content_hash = text "new"; symbol = text "ETHUSDT"; timeframe = text "4h" }

abbrev attempts : List LifecycleCall
attempts =
    sets_status 7 live_status []
    ∷ promotes 7 eligible_decision operator true half_risk
    ∷ supervises no_detail 7 losing one thresholds
    ∷ registers spec
    ∷ []

retired_is_terminal_example : status 7 (after_lifecycle attempts retired_world) ≡ some retired
unfolding status
retired_is_terminal_example = retired_is_terminal 7 attempts retired_world refl

supervise-status_example :
    status 7 (supervise no_detail 7 losing one thresholds calm).1 ≡ some suspended
unfolding status equity_band_breach win_rate_collapse profit_factor_collapse consecutive_loss_streak
    ◌≺◌
supervise-status_example = supervise-status no_detail 7 losing one thresholds calm

may : may_promote 7 eligible_decision operator true incubating_world ≡ true
unfolding status is_blank
may = refl

may_not : may_promote 7 eligible_decision operator true calm ≡ false
unfolding status is_blank
may_not = refl
