-- ===== src/Regime/Window.antt =====
-- Which candles the regime of src/atlas/intel/regime.py depends on.
use atlas_ai_trading.Market.{Kline}
use atlas_ai_trading.Prelude.{List, length, refl, ◌++◌, ◌≡◌, ◌≤◌}
use atlas_ai_trading.Prelude.Slices.{take_last-append}
use atlas_ai_trading.Regime.{RegimeThresholds, classify_regime}

-- Candles before the last `lookback` ones do not change the regime.
pub classify_regime-old :
    (t : RegimeThresholds) (old ks : List Kline)
    → 1 ≤ t.lookback
    → t.lookback ≤ length ks
    → classify_regime t (old ++ ks) ≡ classify_regime t ks
unfolding classify_regime
classify_regime-old t old ks p h = rw (take_last-append t.lookback old ks p h) refl
