-- ===== src/Backtest/Chronology.antt =====
-- The trades of a whole run.
use mathlib.Core.Path.{subst}
use atlas_ai_trading.Backtest.{
  Engine, Setup, book, close_out, closed_out, finished, fresh, run_backtest, run_engine, set_last,
  setup_of,
}
use atlas_ai_trading.Backtest.Costs.{CostModel}
use atlas_ai_trading.Backtest.Exits.{OpenPosition, close_trade, exit_end_of_data}
use atlas_ai_trading.Backtest.Guard.{run_bars-ends, run_bars-keeps}
use atlas_ai_trading.Backtest.Rounds.{on_bar-IsRunning}
use atlas_ai_trading.Backtest.Trades.{Follow, Follow-append, IsHeld, IsRunning, IsTrade}
use atlas_ai_trading.Decimal.{Decimal}
use atlas_ai_trading.Market.{Kline}
use atlas_ai_trading.Prelude.{
  All, All-append, List, Option, [], arith, get_elem?, inl, inr, length, none, refl, some, ◌++◌,
  ◌+◌, ◌-◌, ◌<◌, ◌∷◌, ◌≡◌, ◌⊎◌,
}
use atlas_ai_trading.Prelude.Slices.{get_elem?-in_range}
use atlas_ai_trading.Sizing.{ExchangeFilters, SizingPolicy}
use atlas_ai_trading.Spec.{StrategySpec}
use atlas_ai_trading.World.{arithmetic_error, ok, raised}

-- A run that returned the trades it should.
abbrev pub Traded : Setup → List Kline → Engine → Type 0
Traded u ks e = Follow 0 e.trades (length ks) × All (IsTrade u ks) e.trades

module _ (u : Setup) (ks : List Kline) where
  -- The state after the last bar gives a result.
  closes-Traded :
      (e : Engine) (p : OpenPosition) (k : Kline)
      → get_elem? ks (length ks - 1) ≡ some k
      → e.position ≡ some p
      → IsRunning u ks (length ks) e
      → (e' : Engine) × (closed_out u ks e p (some k) ≡ ok e') × Traded u ks e'
  unfolding book close_trade
  closes-Traded e p k b q r =
      let held : (p.entry_index < length ks) × IsHeld u p = rw q at r.holding in
      let past : Follow 0 e.trades p.entry_index = rw q at r.past in
      let t = (close_trade u.costs p (length ks - 1) k k.close exit_end_of_data).0 in
      let e1 = book u.costs p (length ks - 1) k k.close exit_end_of_data e in
      let later = Follow-append 0 p.entry_index e.trades t (omega arith) (omega arith) past in
      let here : t.exit_index + 1 ≡ length ks = omega arith in
      let this : IsTrade u ks t = record { entered = held.1; bar = k; on_exit = b; ended = here } in
      (
        record e1 { equity_curve = set_last e1.equity e1.equity_curve },
        refl,
        (
          subst (Follow 0 (e.trades ++ t ∷ [])) here later,
          All-append (IsTrade u ks) e.trades (t ∷ []) r.made (this, tt),
        ),
      )

  finishes-Traded :
      (e : Engine) (open_now : Option OpenPosition)
      → e.position ≡ open_now
      → IsRunning u ks (length ks) e
      → (e' : Engine) × (finished u ks e open_now ≡ ok e') × Traded u ks e'
  finishes-Traded e none q r =
      let past : Follow 0 e.trades (length ks) = rw q at r.past in (e, refl, (past, r.made))
  finishes-Traded e (some p) q r =
      let held : (p.entry_index < length ks) × IsHeld u p = rw q at r.holding in
      let (k, b) = get_elem?-in_range ks (length ks - 1) (omega arith) in
      rw b (closes-Traded e p k b q r)

  fresh-IsRunning : (equity : Decimal) → IsRunning u ks 0 (fresh equity)
  fresh-IsRunning equity = record { waiting = tt; holding = tt; past = omega arith; made = tt }

-- A run divides by zero when it sizes a position, or returns.
pub run_engine-Traded :
    (u : Setup) (ks : List Kline) (equity : Decimal)
    → (run_engine u ks equity ≡ raised arithmetic_error)
      ⊎ ((e : Engine) × (run_engine u ks equity ≡ ok e) × Traded u ks e)
unfolding run_engine close_out
run_engine-Traded u ks equity =
    elim (run_bars-ends u ks 0 (length ks) (fresh equity) (omega arith)) [
      | inl q ↦ inl (rw (run_engine, q) refl)
      | inr (v, q) ↦
          let whole : 0 + length ks ≡ length ks = omega arith in
          let running : IsRunning u ks (length ks) v = rw whole at (
            run_bars-keeps (IsRunning u ks) u ks
              (λ i k a b at_bar s r. on_bar-IsRunning u ks i k a b at_bar s r) 0 (length ks)
              (fresh equity) v q (fresh-IsRunning u ks equity)) in
          inr (rw (run_engine, q) (finishes-Traded u ks v v.position refl running))
    ]

-- A backtest divides by zero or returns; it never reads ahead or out of range. Its trades do not overlap
-- in time, and each was opened on the bar after the first signal of a bar, at that signal's levels. A
-- trade was closed as its reason says: on a later bar at its stop, which the bar touched; on a later bar
-- at its target, where the bar touched it and not the stop; on a later bar, after at least max_bars bars
-- and with neither touched; or on the last bar of the data, which may be the bar of its entry.
pub run_backtest-Traded :
    (s : StrategySpec) (ks : List Kline) (policy : SizingPolicy) (filters : ExchangeFilters)
    (starting_equity : Decimal) (costs : CostModel)
    → (run_backtest s ks policy filters starting_equity costs ≡ raised arithmetic_error)
      ⊎ ((e : Engine) × (run_backtest s ks policy filters starting_equity costs ≡ ok e)
          × Traded (setup_of s ks policy filters costs) ks e)
unfolding run_backtest
run_backtest-Traded s ks policy filters starting_equity costs =
    run_engine-Traded (setup_of s ks policy filters costs) ks starting_equity
