-- ===== src/Backtest/Trades.antt =====
-- What holds of the trades of a run: where they come from, how they end, and how they follow.
use atlas_ai_trading.Backtest.{Engine, Setup, signal_on}
use atlas_ai_trading.Backtest.Exits.{
  ExitReason, OpenPosition, Trade, exit_end_of_data, exit_stop, exit_target, exit_time,
  touches_stop, touches_target,
}
use atlas_ai_trading.Decimal.{Decimal}
use atlas_ai_trading.Evaluator.{Signal}
use atlas_ai_trading.Market.{Kline}
use atlas_ai_trading.Prelude.{
  All, List, Option, [], arith, false, get_elem?, length, none, some, true, ℕ, ◌++◌, ◌+◌, ◌<◌, ◌∷◌,
  ◌≡◌, ◌≤◌,
}
use atlas_ai_trading.World.{PositionSide}

-- A level pair was set by the first signal of the bar before an entry.
pub record IsEntered (u : Setup) (entry_index : ℕ) (side : PositionSide)
    (stop_level target_level : Decimal) : Type 0 where
  pub signal : Signal
  pub first : signal_on signal.bar_index u.signals ≡ some signal
  pub next_bar : signal.bar_index + 1 ≡ entry_index
  pub same :
      (signal.side ≡ side) × (signal.stop_price ≡ stop_level) × (signal.target_price ≡ target_level)

-- How a trade ended on a bar, for its reason.
abbrev pub EndedBy : Setup → List Kline → Trade → Kline → ExitReason → Type 0
EndedBy u ks t k exit_stop =
    (t.entry_index < t.exit_index)
    × (touches_stop t.side t.stop_price k ≡ true)
    × (t.exit_price ≡ t.stop_price)
EndedBy u ks t k exit_target =
    (t.entry_index < t.exit_index)
    × (touches_stop t.side t.stop_price k ≡ false)
    × (touches_target t.side t.target_price k ≡ true)
    × (t.exit_price ≡ t.target_price)
EndedBy u ks t k exit_time =
    (t.entry_index < t.exit_index)
    × (t.entry_index + u.max_bars ≤ t.exit_index)
    × (touches_stop t.side t.stop_price k ≡ false)
    × (touches_target t.side t.target_price k ≡ false)
EndedBy u ks t k exit_end_of_data = t.exit_index + 1 ≡ length ks

pub record IsTrade (u : Setup) (ks : List Kline) (t : Trade) : Type 0 where
  pub entered : IsEntered u t.entry_index t.side t.stop_price t.target_price
  pub bar : Kline
  pub on_exit : get_elem? ks t.exit_index ≡ some bar
  pub ended : EndedBy u ks t bar t.exit_reason

-- The trades stand one after the other, from one bar on and before another.
abbrev pub Follow : ℕ → List Trade → ℕ → Type 0
Follow lo [] hi = lo ≤ hi
Follow lo (t ∷ ts) hi =
    (lo ≤ t.entry_index) × (t.entry_index ≤ t.exit_index) × Follow (t.exit_index + 1) ts hi

pub Follow-later : (lo hi hi' : ℕ) (ts : List Trade) → hi ≤ hi' → Follow lo ts hi → Follow lo ts hi'
Follow-later lo hi hi' [] h f = omega arith
Follow-later lo hi hi' (t ∷ ts) h f = (f.0, f.1, Follow-later (t.exit_index + 1) hi hi' ts h f.2)

pub Follow-append :
    (lo hi : ℕ) (ts : List Trade) (t : Trade)
    → hi ≤ t.entry_index
    → t.entry_index ≤ t.exit_index
    → Follow lo ts hi
    → Follow lo (ts ++ t ∷ []) (t.exit_index + 1)
Follow-append lo hi [] t a b f = (omega arith, b, omega arith)
Follow-append lo hi (s ∷ ts) t a b f = (f.0, f.1, Follow-append (s.exit_index + 1) hi ts t a b f.2)

-- What holds of the state between two bars.
abbrev pub PendingOk : Setup → ℕ → Option OpenPosition → Option Signal → Type 0
PendingOk u i p none = Unit
PendingOk u i (some p) (some g) = ⊥
PendingOk u i none (some g) = (signal_on g.bar_index u.signals ≡ some g) × (g.bar_index + 1 ≡ i)

abbrev pub IsHeld : Setup → OpenPosition → Type 0
IsHeld u p = IsEntered u p.entry_index p.side p.stop_price p.target_price

abbrev pub OpenOk : Setup → ℕ → Option OpenPosition → Type 0
OpenOk u i none = Unit
OpenOk u i (some p) = (p.entry_index < i) × IsHeld u p

abbrev pub next_entry : ℕ → Option OpenPosition → ℕ
next_entry i none = i
next_entry i (some p) = p.entry_index

pub record IsRunning (u : Setup) (ks : List Kline) (i : ℕ) (e : Engine) : Type 0 where
  pub waiting : PendingOk u i e.position e.pending
  pub holding : OpenOk u i e.position
  pub past : Follow 0 e.trades (next_entry i e.position)
  pub made : All (IsTrade u ks) e.trades
