-- ===== src/Incubation/Resolution.antt =====
-- `_resolve` of src/atlas/incubation/tracker.py against `_resolve_exit` of the backtest.
use atlas_ai_trading.Backtest.Exits.{
  ExitReason, OpenPosition, exit_end_of_data, exit_stop, exit_target, exit_time, resolve_exit,
  touches_stop, touches_target,
}
use atlas_ai_trading.Decimal.{Decimal}
use atlas_ai_trading.Evaluator.{Signal}
use atlas_ai_trading.Incubation.{
  PaperOutcome, Resolved, graded, paper_loss, paper_open, paper_win, resolve_entry, resolve_from,
  stopped, targeted,
}
use atlas_ai_trading.Market.{Kline}
use atlas_ai_trading.Prelude.{
  List, Option, [], arith, drop, none, refl, some, ℕ, ◌+◌, ◌<◌, ◌∷◌, ◌≡◌,
}
use atlas_ai_trading.World.{PositionSide, long, short}

-- The first bar on which the backtest would close a position.
unfoldable pub first_exit :
    OpenPosition → (max_bars index : ℕ) → List Kline → Option (Kline × Decimal × ExitReason)
first_exit p max_bars index [] = none
first_exit p max_bars index (k ∷ ks) = elim (resolve_exit p k index max_bars) [
  | some (raw, reason) ↦ some (k, raw, reason)
  | none ↦ first_exit p max_bars (index + 1) ks
]

abbrev outcome_for : PositionSide → Decimal → ExitReason → Decimal → PaperOutcome
outcome_for side entry_open exit_stop raw = paper_loss
outcome_for side entry_open exit_target raw = paper_win
outcome_for side entry_open exit_time raw = graded side entry_open raw
outcome_for side entry_open exit_end_of_data raw = graded side entry_open raw

-- An exit of the backtest as incubation writes it down.
abbrev pub as_resolved : PositionSide → Decimal → Option (Kline × Decimal × ExitReason) → Resolved
as_resolved side entry_open none = record { at = none; exit = none; outcome = paper_open }
as_resolved side entry_open (some (k, raw, reason)) = record {
  at = some k.close_time;
  exit = some raw;
  outcome = outcome_for side entry_open reason raw;
}

same_stop :
    (side : PositionSide) (x : Decimal) (k : Kline) → stopped side x k ≡ touches_stop side x k
same_stop long x k = refl
same_stop short x k = refl

same_target :
    (side : PositionSide) (x : Decimal) (k : Kline) → targeted side x k ≡ touches_target side x k
same_target long x k = refl
same_target short x k = refl

resolve_from-first_exit :
    (p : OpenPosition) (entry_open : Decimal) (max_bars index : ℕ) (ks : List Kline)
    → p.entry_index < index
    → resolve_from p.entry_index entry_open p.side p.stop_price p.target_price max_bars index ks
      ≡ as_resolved p.side entry_open (first_exit p max_bars index ks)
unfolding resolve_from first_exit resolve_exit
resolve_from-first_exit p entry_open max_bars index [] h = refl
resolve_from-first_exit p entry_open max_bars index (k ∷ ks) h = ground (
  arith,
  same_stop p.side p.stop_price k,
  same_target p.side p.target_price k,
  resolve_from-first_exit p entry_open max_bars (index + 1) ks,
)

-- A paper trade on the levels of a position ends where, at what price and as the backtest would end the
-- position: on the first later bar that closes it, with the stop before the target.
pub resolve_entry-first_exit :
    (p : OpenPosition) (g : Signal) (ks : List Kline) (k : Kline) (max_bars : ℕ)
    → let g' = record g {
      side = p.side;
      stop_price = p.stop_price;
      target_price = p.target_price;
    } in
      let later = drop (p.entry_index + 1) ks in
      resolve_entry ks p.entry_index k g' max_bars
      ≡ as_resolved p.side k.open_price (first_exit p max_bars (p.entry_index + 1) later)
unfolding resolve_entry
resolve_entry-first_exit p g ks k max_bars =
    resolve_from-first_exit p k.open_price max_bars (p.entry_index + 1)
      (drop (p.entry_index + 1) ks) (omega arith)
