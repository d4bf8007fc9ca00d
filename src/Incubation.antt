-- ===== src/Incubation.antt =====
-- src/atlas/incubation/tracker.py: a strategy is watched without capital. The two tables, the start of
-- an observation, and the paper trades that the signals would have made.
pub mod Divergence
pub mod Resolution
pub mod Start
use atlas_ai_trading.Decimal.{Decimal, decimal, div, nought, one, ◌≺◌, ◌≼◌, ◌⊖◌, ◌⊗◌}
use atlas_ai_trading.Evaluator.{Signal, evaluate}
use atlas_ai_trading.Market.{Kline}
use atlas_ai_trading.Prelude.{
  Bool, List, Option, [], and_then, any, drop, false, find, get_elem?, if◌then◌else◌, keep, leb,
  none, some, true, ℕ, ◌++◌, ◌+◌, ◌-◌, ◌/◌, ◌==◌, ◌∷◌,
}
use atlas_ai_trading.Prelude.Int.{negsuc}
use atlas_ai_trading.Prelude.Text.{Text}
use atlas_ai_trading.Spec.{StrategySpec}
use atlas_ai_trading.World.{PositionSide, Result, integrity_error, long, ok, raised, short}

pub data PaperOutcome : Type 0 where
  paper_win paper_loss paper_open : PaperOutcome

-- A row of `incubation_signals`.
pub record IncubationSignal : Type 0 where
  pub id : ℕ
  pub strategy_id : ℕ
  pub signal_at : ℕ
  pub side : PositionSide
  pub entry_price : Decimal
  pub stop_price : Decimal
  pub target_price : Decimal
  pub exit_at : Option ℕ
  pub exit_price : Option Decimal
  pub paper_outcome : PaperOutcome
  pub return_pct : Option Decimal

-- `IncubationSignal.is_closed`
abbrev pub is_closed : IncubationSignal → Bool
is_closed s = elim s.paper_outcome [ paper_win ↦ true | paper_loss ↦ true | paper_open ↦ false ]

pub record IncubationRun : Type 0 where
  pub strategy_id : ℕ
  pub spec_hash : Text
  pub config_hash : Text
  pub started_at : ℕ
  pub started_by : Text

-- The two tables, the ids of the strategies that their rows refer to, and the next value of `uuid4`.
pub record Tracker : Type 0 where
  pub known : List ℕ
  pub runs : List IncubationRun
  pub paper_trades : List IncubationSignal
  pub next_id : ℕ

abbrev pub is_run_of : ℕ → IncubationRun → Bool
is_run_of i r = r.strategy_id == i

-- `run_for`
unfoldable pub run_for : ℕ → Tracker → Option IncubationRun
run_for i t = find (is_run_of i) t.runs

-- `REFERENCES strategies(id)`
abbrev pub is_known_in : ℕ → Tracker → Bool
is_known_in i t = any (λ j. j == i) t.known

abbrev begun : IncubationRun → Option IncubationRun → Tracker → Result IncubationRun × Tracker
begun r (some existing) t = (ok existing, t)
begun r none t =
    if is_known_in r.strategy_id t
    then (ok r, record t { runs = t.runs ++ r ∷ [] })
    else (raised integrity_error, t)

-- `begin`: the start is written once.
unfoldable pub begin : IncubationRun → Tracker → Result IncubationRun × Tracker
unfolding run_for
begin r t = begun r (run_for r.strategy_id t) t

-- `elapsed_days`
abbrev days_since : Option IncubationRun → ℕ → ℕ
days_since none now = 0
days_since (some r) now = (now - r.started_at) / 86400000

unfoldable pub elapsed_days : ℕ → (now : ℕ) → Tracker → ℕ
unfolding run_for
elapsed_days i now t = days_since (run_for i t) now

-- The two comparisons of `_resolve`.
abbrev pub stopped : PositionSide → Decimal → Kline → Bool
stopped long stop_level k = k.low ≼ stop_level
stopped short stop_level k = stop_level ≼ k.high

abbrev pub targeted : PositionSide → Decimal → Kline → Bool
targeted long target_level k = target_level ≼ k.high
targeted short target_level k = k.low ≼ target_level

abbrev pub sign_of : PositionSide → Decimal
sign_of long = one
sign_of short = decimal (negsuc 0) 0

-- What `_resolve` returns.
pub record Resolved : Type 0 where
  pub at : Option ℕ
  pub exit : Option Decimal
  pub outcome : PaperOutcome

-- The outcome of an exit at the close.
abbrev pub graded : PositionSide → (entry_open close : Decimal) → PaperOutcome
graded side entry_open close =
    if nought ≺ (close ⊖ entry_open) ⊗ sign_of side then paper_win else paper_loss

-- The loop of `_resolve`, at a bar and those after it.
unfoldable pub resolve_from :
    (entry_index : ℕ)
    → (entry_open : Decimal) → PositionSide
    → (stop_level target_level : Decimal) → (max_bars index : ℕ) → List Kline
    → Resolved
resolve_from entry_index entry_open side stop_level target_level max_bars index [] = record {
  at = none;
  exit = none;
  outcome = paper_open;
}
resolve_from entry_index entry_open side stop_level target_level max_bars index (k ∷ ks) =
    let rest =
      resolve_from entry_index entry_open side stop_level target_level max_bars (index + 1) ks in
    if stopped side stop_level k
    then record { at = some k.close_time; exit = some stop_level; outcome = paper_loss }
    else if targeted side target_level k
    then record { at = some k.close_time; exit = some target_level; outcome = paper_win }
    else if leb max_bars (index - entry_index)
    then record {
      at = some k.close_time;
      exit = some k.close;
      outcome = graded side entry_open k.close;
    }
    else rest

-- `_resolve`, of an entry at a bar that is given.
unfoldable pub resolve_entry : List Kline → ℕ → Kline → Signal → ℕ → Resolved
unfolding resolve_from
resolve_entry ks entry_index k g max_bars =
    resolve_from entry_index k.open_price g.side g.stop_price g.target_price max_bars
      (entry_index + 1) (drop (entry_index + 1) ks)

-- `return_pct`
return_of : PositionSide → (entry_price : Decimal) → Option Decimal → Option Decimal
return_of side entry_price none = none
return_of side entry_price (some exit) =
    if nought ≺ entry_price
    then and_then (div (exit ⊖ entry_price) entry_price) (λ r. some (r ⊗ sign_of side))
    else none

unfoldable pub paper_trade : ℕ → ℕ → Signal → Kline → Resolved → IncubationSignal
unfolding return_of
paper_trade id i g k r = record {
  id = id;
  strategy_id = i;
  signal_at = k.open_time;
  side = g.side;
  entry_price = k.open_price;
  stop_price = g.stop_price;
  target_price = g.target_price;
  exit_at = r.at;
  exit_price = r.exit;
  paper_outcome = r.outcome;
  return_pct = return_of g.side k.open_price r.exit;
}

-- The table with the paper trade of a signal.
with_trade : ℕ → List Kline → ℕ → Signal → Kline → Tracker → Tracker
unfolding resolve_entry paper_trade
with_trade i ks max_bars g k t = record t {
  paper_trades =
      t.paper_trades
      ++ paper_trade t.next_id i g k (resolve_entry ks (g.bar_index + 1) k g max_bars) ∷ [];
  next_id = t.next_id + 1;
}

-- The loop of `record_signals`; a signal whose bar is the last one has no entry.
record_each : ℕ → List Kline → ℕ → List Signal → (recorded : ℕ) → Tracker → Result ℕ × Tracker
unfolding with_trade
record_each i ks max_bars [] recorded t = (ok recorded, t)
record_each i ks max_bars (g ∷ gs) recorded t = elim (get_elem? ks (g.bar_index + 1)) [
  | none ↦ record_each i ks max_bars gs recorded t
  | some k ↦
      if is_known_in i t
      then record_each i ks max_bars gs (recorded + 1) (with_trade i ks max_bars g k t)
      else (raised integrity_error, t)
]

-- `record_signals`
unfoldable pub record_signals : ℕ → StrategySpec → List Kline → Tracker → Result ℕ × Tracker
unfolding record_each
record_signals i s ks t = record_each i ks s.max_bars_in_trade (evaluate s ks) 0 t

-- `signals_for`: `ORDER BY signal_at`, a stable sort.
insert_by_time : IncubationSignal → List IncubationSignal → List IncubationSignal
insert_by_time s [] = s ∷ []
insert_by_time s (r ∷ rs) =
    let rest = r ∷ insert_by_time s rs in if leb s.signal_at r.signal_at then s ∷ r ∷ rs else rest

sort_by_time : List IncubationSignal → List IncubationSignal
unfolding insert_by_time
sort_by_time [] = []
sort_by_time (s ∷ ss) = insert_by_time s (sort_by_time ss)

unfoldable pub signals_for : ℕ → Tracker → List IncubationSignal
unfolding sort_by_time
signals_for i t = sort_by_time (keep (λ (s : IncubationSignal). s.strategy_id == i) t.paper_trades)
