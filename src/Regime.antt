-- ===== src/Regime.antt =====
-- src/atlas/intel/regime.py: the trend and the volatility of the most recent candles.
pub mod Window
use atlas_ai_trading.Decimal.{Decimal, abs, decimal, div, nought, sum, ◌≺◌, ◌≼◌, ◌⊖◌}
use atlas_ai_trading.Indicators.{over}
use atlas_ai_trading.Market.{Kline}
use atlas_ai_trading.Prelude.{
  Bool, List, Option, [], false, if◌then◌else◌, length, ltb, map, none, not, or_default, some,
  take_last, true, ℕ, ◌&&◌, ◌∷◌,
}
use atlas_ai_trading.Prelude.Int.{pos}
use atlas_ai_trading.World.{Result, index_error, ok, raised}

pub data TrendState : Type 0 where
  trending_up trending_down ranging trend_unclear : TrendState

pub data VolatilityState : Type 0 where
  high_volatility normal_volatility low_volatility volatility_unclear : VolatilityState

pub data RiskState : Type 0 where
  risk_on risk_off risk_unavailable : RiskState

pub record RegimeThresholds : Type 0 where
  pub lookback : ℕ
  pub trend_window : ℕ
  pub trend_efficiency : Decimal
  pub high_volatility_ratio : Decimal
  pub low_volatility_ratio : Decimal
  pub min_bars : ℕ

abbrev pub default_regime_thresholds : RegimeThresholds
default_regime_thresholds = record {
  lookback = 100;
  trend_window = 20;
  trend_efficiency = decimal (pos 30) 2;
  high_volatility_ratio = decimal (pos 150) 2;
  low_volatility_ratio = decimal (pos 60) 2;
  min_bars = 30;
}

pub record MarketRegime : Type 0 where
  pub trend : TrendState
  pub volatility : VolatilityState
  pub risk : RiskState
  pub efficiency : Option Decimal
  pub volatility_ratio : Option Decimal
  pub bars_used : ℕ

abbrev is_unclear : TrendState → VolatilityState → Bool
is_unclear trend_unclear v = true
is_unclear trending_up v = elim v [ volatility_unclear ↦ true | _ ↦ false ]
is_unclear trending_down v = elim v [ volatility_unclear ↦ true | _ ↦ false ]
is_unclear ranging v = elim v [ volatility_unclear ↦ true | _ ↦ false ]

-- `MarketRegime.is_measurable` and `favours`
unfoldable pub is_measurable : MarketRegime → Bool
is_measurable r = not (is_unclear r.trend r.volatility)

abbrev trend_favours : TrendState → (upward : Bool) → Bool
trend_favours trending_up upward = upward
trend_favours trending_down upward = not upward
trend_favours ranging upward = false
trend_favours trend_unclear upward = false

unfoldable pub favours : MarketRegime → (upward : Bool) → Bool
favours r upward = trend_favours r.trend upward

-- `_mean_true_range`
unfoldable pub mean_range : List Kline → Decimal
mean_range [] = nought
mean_range (k ∷ ks) = over (sum (map (λ (b : Kline). b.high ⊖ b.low) (k ∷ ks))) (length (k ∷ ks))

-- The close of the last of some bars.
last_close_after : Kline → List Kline → Decimal
last_close_after k [] = k.close
last_close_after k (l ∷ ks) = last_close_after l ks

-- `abs(b.close - a.close) for a, b in pairwise(recent)`
steps_after : Kline → List Kline → List Decimal
steps_after k [] = []
steps_after k (l ∷ ks) = abs (l.close ⊖ k.close) ∷ steps_after l ks

-- A quotient whose divisor the code has found to be positive.
abbrev pub positive_quotient : Decimal → Decimal → Decimal
positive_quotient a b = or_default (div a b) nought

efficiency_of : Decimal → Decimal → Decimal
efficiency_of net path = if path ≼ nought then nought else positive_quotient (abs net) path

trend_of : RegimeThresholds → Decimal → Decimal → TrendState
trend_of t net efficiency =
    if (t.trend_efficiency ≼ efficiency) && not ((net ≼ nought) && (nought ≼ net))
    then if nought ≺ net then trending_up else trending_down
    else ranging

ratio_of : Decimal → Decimal → Option Decimal
ratio_of baseline current =
    if baseline ≼ nought then none else some (positive_quotient current baseline)

volatility_of : RegimeThresholds → Option Decimal → VolatilityState
volatility_of t none = volatility_unclear
volatility_of t (some ratio) =
    if t.high_volatility_ratio ≼ ratio
    then high_volatility
    else if ratio ≼ t.low_volatility_ratio
    then low_volatility
    else normal_volatility

abbrev too_few : ℕ → MarketRegime
too_few n = record {
  trend = trend_unclear;
  volatility = volatility_unclear;
  risk = risk_unavailable;
  efficiency = none;
  volatility_ratio = none;
  bars_used = n;
}

-- The regime of a window and of its recent part; `recent[-1]` raises on an empty one.
regime_of : RegimeThresholds → List Kline → List Kline → Result MarketRegime
unfolding last_close_after steps_after efficiency_of trend_of ratio_of volatility_of
regime_of t bars [] = raised index_error
regime_of t bars (k ∷ recent) =
    let net = last_close_after k recent ⊖ k.close in
    let efficiency = efficiency_of net (sum (steps_after k recent)) in
    let ratio = ratio_of (mean_range bars) (mean_range (k ∷ recent)) in
    ok (record {
      trend = trend_of t net efficiency;
      volatility = volatility_of t ratio;
      risk = risk_unavailable;
      efficiency = some efficiency;
      volatility_ratio = ratio;
      bars_used = length bars;
    })

unfoldable pub classify_regime : RegimeThresholds → List Kline → Result MarketRegime
unfolding regime_of
classify_regime t ks =
    let bars = take_last t.lookback ks in
    if ltb (length bars) t.min_bars
    then ok (too_few (length bars))
    else regime_of t bars (take_last t.trend_window bars)
