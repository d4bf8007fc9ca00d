-- ===== src/Market.antt =====
-- src/atlas/data/models.py: closed candles and their series. A time is a number of milliseconds. The
-- hash of a series, and the split by a binary fraction, are left out.
pub mod Validation
use atlas_ai_trading.Decimal.{Decimal, nought, ◌≺◌, ◌≼◌, ◌⊖◌}
use atlas_ai_trading.Prelude.{Bool, List, Option, keep, leb, ltb, none, some, true, ℕ, ◌&&◌, ◌*◌}
use atlas_ai_trading.Prelude.Text.{Text}

pub data Timeframe : Type 0 where
  m1 m5 m15 m30 h1 h4 d1 : Timeframe

abbrev minutes : Timeframe → ℕ
minutes m1 = 1
minutes m5 = 5
minutes m15 = 15
minutes m30 = 30
minutes h1 = 60
minutes h4 = 240
minutes d1 = 1440

-- `Timeframe.milliseconds`
unfoldable pub milliseconds : Timeframe → ℕ
milliseconds t = 60000 * minutes t

pub record Kline : Type 0 where
  pub open_time : ℕ
  pub close_time : ℕ
  pub open_price : Decimal
  pub high : Decimal
  pub low : Decimal
  pub close : Decimal
  pub volume : Decimal
  pub trades : ℕ

abbrev is_between : Decimal → Decimal → Decimal → Bool
is_between lo hi x = (lo ≼ x) && (x ≼ hi)

-- The field constraints of `Kline` and `_validate_ohlc`.
unfoldable pub is_valid_kline : Kline → Bool
is_valid_kline k =
    (nought ≺ k.open_price)
    && (nought ≺ k.high)
    && (nought ≺ k.low)
    && (nought ≺ k.close)
    && (nought ≼ k.volume)
    && (k.low ≼ k.high)
    && is_between k.low k.high k.open_price
    && is_between k.low k.high k.close
    && ltb k.open_time k.close_time

-- `Kline.range` and `Kline.is_up`
unfoldable pub range_of : Kline → Decimal
range_of k = k.high ⊖ k.low

unfoldable pub is_up : Kline → Bool
is_up k = k.open_price ≺ k.close

pub record KlineSeries : Type 0 where
  pub symbol : Text
  pub timeframe : Timeframe
  pub bars : List Kline

abbrev after_start : Option ℕ → Kline → Bool
after_start none k = true
after_start (some t) k = leb t k.open_time

abbrev before_end : Option ℕ → Kline → Bool
before_end none k = true
before_end (some t) k = leb k.close_time t

-- `KlineSeries.slice_by_time`
unfoldable pub slice_by_time : Option ℕ → Option ℕ → KlineSeries → KlineSeries
slice_by_time start end s = record s {
  bars = keep (λ k. after_start start k && before_end end k) s.bars;
}
