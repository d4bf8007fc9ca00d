-- ===== src/Indicators/Registry.antt =====
-- The registry of src/atlas/strategy/indicators.py: `CLOSE_INDICATORS`, `BAR_INDICATORS` and `compute`.
use atlas_ai_trading.Decimal.{Decimal}
use atlas_ai_trading.Indicators.{
  Series, atr, ema, rolling_high, rolling_low, rsi, sma, true_range, volume_sma,
}
use atlas_ai_trading.Market.{Kline}
use atlas_ai_trading.Prelude.{
  Bool, List, Option, false, if◌then◌else◌, map, none, not, some, true, ℕ, ◌&&◌, ◌==◌,
}
use atlas_ai_trading.Prelude.Text.{Text, text, text_eq}
use atlas_ai_trading.World.{Result, ok, raised, value_error}

-- The keys of the two dictionaries.
pub data IndicatorName : Type 0 where
  name_sma name_ema name_rsi : IndicatorName
  name_atr name_rolling_high name_rolling_low name_volume_sma name_true_range : IndicatorName

-- `name in INDICATOR_NAMES`
unfoldable pub indicator_named : Text → Option IndicatorName
indicator_named s =
    if text_eq s (text "sma")
    then some name_sma
    else if text_eq s (text "ema")
    then some name_ema
    else if text_eq s (text "rsi")
    then some name_rsi
    else if text_eq s (text "atr")
    then some name_atr
    else if text_eq s (text "rolling_high")
    then some name_rolling_high
    else if text_eq s (text "rolling_low")
    then some name_rolling_low
    else if text_eq s (text "volume_sma")
    then some name_volume_sma
    else if text_eq s (text "true_range")
    then some name_true_range
    else none

unfoldable pub closes : List Kline → List Decimal
closes = map (λ (k : Kline). k.close)

-- The indicator that a name stands for, at a period of at least 1.
unfoldable pub compute : IndicatorName → List Kline → ℕ → Series
unfolding closes sma ema rsi atr rolling_high rolling_low volume_sma true_range
compute name_sma ks period = sma (closes ks) period
compute name_ema ks period = ema (closes ks) period
compute name_rsi ks period = rsi (closes ks) period
compute name_atr ks period = atr ks period
compute name_rolling_high ks period = rolling_high ks period
compute name_rolling_low ks period = rolling_low ks period
compute name_volume_sma ks period = volume_sma ks period
compute name_true_range ks period = true_range ks

abbrev ignores_period : IndicatorName → Bool
ignores_period name_true_range = true
ignores_period _ = false

-- `compute(name, bars, period)` at any text and any period.
unfoldable pub compute_named : Text → List Kline → ℕ → Result Series
compute_named s ks period = elim (indicator_named s) [
  | none ↦ raised value_error
  | some n ↦
      if period == 0 && not (ignores_period n) then raised value_error else ok (compute n ks period)
]
