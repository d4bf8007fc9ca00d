-- ===== src/Backtest/Bars.antt =====
-- src/atlas/backtest/guard.py: `GuardedBars`, which checks every index that is read.
use atlas_ai_trading.Market.{Kline}
use atlas_ai_trading.Prelude.{
  Bool, List, Option, get_elem?, if◌then◌else◌, ltb, none, some, true, ℕ,
}
use atlas_ai_trading.World.{Result, index_error, lookahead_error, ok, raised}

-- A bar sequence with its frontier, `none` before the first bar.
pub record GuardedBars : Type 0 where
  pub bars : List Kline
  pub frontier : Option ℕ

unfoldable pub advance_to : ℕ → GuardedBars → GuardedBars
advance_to i g = record g { frontier = some i }

abbrev is_beyond : ℕ → Option ℕ → Bool
is_beyond i none = true
is_beyond i (some f) = ltb f i

abbrev or_index_error : Option Kline → Result Kline
or_index_error none = raised index_error
or_index_error (some k) = ok k

-- `GuardedBars.__getitem__`, at an index from the start.
unfoldable pub guarded_get : GuardedBars → ℕ → Result Kline
guarded_get g i =
    if is_beyond i g.frontier then raised lookahead_error else or_index_error (get_elem? g.bars i)
