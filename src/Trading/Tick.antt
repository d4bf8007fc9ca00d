-- ===== src/Trading/Tick.antt =====
-- src/atlas/runtime/trading_service.py, `TradingService.tick`: the universe, and the order of a tick.
pub mod Coverage
pub mod Silence
pub mod Rounds
pub mod Kept
pub mod Counts
pub mod Single
use atlas_ai_trading.KillSwitch.{arm, is_armed, read_state}
use atlas_ai_trading.Ledger.{has_strategy_id}
use atlas_ai_trading.Limits.{check_portfolio_limits}
use atlas_ai_trading.Market.{Kline, KlineSeries}
use atlas_ai_trading.Prelude.{
  Bool, List, Option, [], false, find, if◌then◌else◌, keep, last, length, ltb, map, none, not,
  or_default, some, true, ℕ, ◌&&◌, ◌++◌, ◌==◌, ◌||◌, ◌∷◌,
}
use atlas_ai_trading.Prelude.Text.{Text, text_eq}
use atlas_ai_trading.Reconcile.{reconcile}
use atlas_ai_trading.Registry.{list_by_status}
use atlas_ai_trading.Spec.{StrategySpec}
use atlas_ai_trading.Trading.{
  Inputs, Service, TickResult, configured_in, fill_remaining, log_tick, record_decisions,
  series_for, supervise_all, trading_actor,
}
use atlas_ai_trading.Trading.Decisions.{SymbolDecision, bare_decision}
use atlas_ai_trading.Trading.Entries.{consider_each}
use atlas_ai_trading.Trading.Steps.{Loop, Step, goes_on, stops, symbol_of, with_decision}
use atlas_ai_trading.World.{
  Action, KillSwitchTrigger, Strategy, World, arithmetic_error, decision_halted, entries_suspended,
  live_status, log, no_strategy, or_raise, pure, retired, system, unpriced, ◌>>=◌, ◌>>◌,
}

-- The order of texts by their code points.
text_before : Text → Text → Bool
text_before [] [] = false
text_before [] (b ∷ s) = true
text_before (a ∷ r) [] = false
text_before (a ∷ r) (b ∷ s) = ltb a b || (a == b && text_before r s)

insert_text : Text → List Text → List Text
unfolding text_before
insert_text s [] = s ∷ []
insert_text s (r ∷ rs) = if text_before r s then r ∷ insert_text s rs else s ∷ r ∷ rs

sort_texts : List Text → List Text
unfolding insert_text
sort_texts [] = []
sort_texts (s ∷ ss) = insert_text s (sort_texts ss)

-- `dict.fromkeys`: the first of equal ones is kept.
without : Text → List Text → List Text
without s rs = keep (λ r. not (text_eq s r)) rs

unfoldable pub distinct : List Text → List Text
unfolding without
distinct [] = []
distinct (s ∷ ss) = s ∷ without s (distinct ss)

-- Strategies by the symbols that they stand for, in the order in which the symbols came.
abbrev pub Deployed : Type 0
Deployed = List (Text × List (ℕ × Option StrategySpec))

-- `grouped.setdefault(symbol, []).append(…)`
unfoldable pub group : Text → ℕ × Option StrategySpec → Deployed → Deployed
group symbol p [] = (symbol, p ∷ []) ∷ []
group symbol p ((k, ps) ∷ rest) =
    if text_eq k symbol then (k, ps ++ p ∷ []) ∷ rest else (k, ps) ∷ group symbol p rest

-- `by_symbol.get(symbol, [])`
unfoldable pub deployed_for : Text → Deployed → List (ℕ × Option StrategySpec)
deployed_for symbol [] = []
deployed_for symbol ((k, ps) ∷ rest) = if text_eq k symbol then ps else deployed_for symbol rest

-- `StrategyRegistry.load_spec`
abbrev spec_of_row : Service → Option Strategy → Option StrategySpec
spec_of_row v none = none
spec_of_row v (some row) = v.specs row.spec_hash

unfoldable pub load_spec : Service → ℕ → World → Option StrategySpec
load_spec v i w = spec_of_row v (find (has_strategy_id i) w.strategies)

group_all : Service → World → List ℕ → Deployed → Deployed
unfolding group load_spec
group_all v w [] g = g
group_all v w (i ∷ is) g =
    let s = load_spec v i w in group_all v w is (group (symbol_of s) (i, s) g)

-- `_live_strategies_by_symbol`
unfoldable pub live_strategies_by_symbol : Service → World → Deployed
unfolding group_all
live_strategies_by_symbol v w = group_all v w (list_by_status live_status w) []

unfoldable pub universe_of : List Text → Deployed → List Text
unfolding sort_texts distinct
universe_of configured g =
    distinct (configured ++ sort_texts (map (λ (p : Text × List (ℕ × Option StrategySpec)). p.0) g))

-- The decision on a symbol for which nothing is deployed.
abbrev close_time_of : Option Kline → Option ℕ
close_time_of none = none
close_time_of (some k) = some k.close_time

abbrev pub undeployed : Text → Option KlineSeries → SymbolDecision
undeployed symbol none = bare_decision symbol no_strategy
undeployed symbol (some series) = record (bare_decision symbol no_strategy) {
  num_bars = some (length series.bars);
  last_bar_close = close_time_of (last series.bars);
}

abbrev pub start_result : ℕ → TickResult
start_result now = record {
  at = now;
  halted = false;
  halt_reason = [];
  entries_placed = 0;
  entries_rejected = 0;
  is_suspended = false;
  retired = [];
  decisions = [];
}

abbrev pub breached : Text → TickResult → TickResult
breached reason r = record r { halted = true; halt_reason = reason }

-- What is told of a switch that is armed: the reason of the breach, or that of the switch.
abbrev pub told_halt : Text → TickResult → TickResult
told_halt reason r = record r {
  halted = true;
  halt_reason = elim r.halt_reason [ [] ↦ reason | c ∷ cs ↦ c ∷ cs ];
}

-- The next symbol, unless the loop has stopped.
abbrev pub next_symbol : (Loop → Action Loop) → Step → Action Loop
next_symbol next (goes_on l) = next l
next_symbol next (stops l) = pure l

module _ (v : Service) (t : Inputs) where
  -- 2. The limits of the account, where it is fully valued.
  unfoldable pub on_breach : TickResult → Option KillSwitchTrigger → Action TickResult
  on_breach r none = pure r
  on_breach r (some trigger) = do
    let reason = v.breach_text trigger t.account
    arm trigger reason trading_actor
    pure (breached reason r)

  unfoldable pub check_account : TickResult → Action TickResult
  unfolding on_breach
  check_account r =
      if t.account.valuation_complete
      then (or_raise (check_portfolio_limits t.account v.limits) arithmetic_error >>= on_breach r)
      else log system (unpriced t.account.unpriced_symbols) trading_actor
        >> pure (record r { is_suspended = true })

  -- One symbol with what is deployed for it, and what comes after it.
  unfoldable pub visit :
      ℕ → Text → List (ℕ × Option StrategySpec) → (Loop → Action Loop) → Loop → Action Loop
  visit reference symbol [] next l =
      next (with_decision (undeployed symbol (series_for symbol t.series_by_symbol)) l)
  visit reference symbol (p ∷ ps) next l =
      consider_each v t reference symbol (p ∷ ps) l >>= next_symbol next

  -- 3. Entries, over the universe; the loop stops with the first strategy that stops it.
  unfoldable pub each_symbol : ℕ → Deployed → List Text → Loop → Action Loop
  unfolding deployed_for visit
  each_symbol reference g [] l = pure l
  each_symbol reference g (symbol ∷ rest) l =
      visit reference symbol (deployed_for symbol g) (each_symbol reference g rest) l

  abbrev pub start_loop : TickResult → Loop
  start_loop r = record {
    result = r;
    open_now = t.account.open_symbols;
    free_cash = t.account.free_cash;
    deployed = t.account.deployed;
  }

  -- 4. Supervision comes last, also where nothing may be entered.
  unfoldable pub conclude : TickResult → List ℕ → Action TickResult
  conclude r gone = let r' = record r { retired = gone } in log_tick r' >> pure r'

  unfoldable pub finish : TickResult → Action TickResult
  unfolding conclude
  finish r = supervise_all v t >>= conclude r

  unfoldable pub after_loop : List Text → Loop → Action TickResult
  unfolding finish
  after_loop universe l =
      let filled = fill_remaining universe decision_halted l.result in
      record_decisions filled.decisions >> finish filled

  unfoldable pub entries : ℕ → TickResult → Action TickResult
  unfolding each_symbol after_loop
  entries reference r w =
      let g = live_strategies_by_symbol v w in
      let universe = universe_of (configured_in t) g in
      (each_symbol reference g universe (start_loop r) >>= after_loop universe) w

  -- An armed switch outranks a suspension.
  unfoldable pub after_limits : ℕ → TickResult → Action TickResult
  unfolding entries finish
  after_limits reference r w =
      (if is_armed w
          then finish
              (fill_remaining (configured_in t) decision_halted (told_halt (read_state w).reason r))
          else if r.is_suspended
          then finish (fill_remaining (configured_in t) entries_suspended r)
          else entries reference r)
        w

  unfoldable pub tick_at : ℕ → Action TickResult
  unfolding check_account after_limits
  tick_at reference =
      reconcile t.exchange_orders
      >> (check_account (start_result reference) >>= after_limits reference)

  unfoldable pub tick : Action TickResult
  unfolding tick_at
  tick w = tick_at (or_default t.now w.clock) w
