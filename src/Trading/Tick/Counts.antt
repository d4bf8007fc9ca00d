-- ===== src/Trading/Tick/Counts.antt =====
-- The counts of a tick, `TickResult` of src/atlas/runtime/trading_service.py.
use atlas_ai_trading.Prelude.{List, any, arith, false, keep, map, not, ◌≡◌}
use atlas_ai_trading.Prelude.Text.{Text}
use atlas_ai_trading.Trading.{Inputs, Service, TickResult, fill_remaining, names}
use atlas_ai_trading.Trading.Decisions.{bare_decision, is_entry}
use atlas_ai_trading.Trading.Steps.Rules.{is_declined}
use atlas_ai_trading.Trading.Steps.Tally.{
  IsCounted, AnySymbol, IsCounted-IsClosed, num_with-append, num_with-bare,
}
use atlas_ai_trading.Trading.Tick.{tick}
use atlas_ai_trading.Trading.Tick.Kept.{IsBlank, IsFraming, tick-Gives}
use atlas_ai_trading.World.{DecisionOutcome, World, ok}

fill_remaining-IsCounted :
    (universe : List Text) (outcome : DecisionOutcome) (r : TickResult)
    → is_entry outcome ≡ false
    → is_declined outcome ≡ false
    → IsCounted r
    → IsCounted (fill_remaining universe outcome r)
unfolding fill_remaining
fill_remaining-IsCounted universe outcome r n m c =
    let left = keep (λ symbol. not (any (names symbol) r.decisions)) universe in
    let more = map (λ symbol. bare_decision symbol outcome) left in
    record {
      placed = omega (
        arith,
        c.placed,
        num_with-append is_entry r.decisions more,
        num_with-bare is_entry outcome left n,
      );
      declines = omega (
        arith,
        c.declines,
        num_with-append is_declined r.decisions more,
        num_with-bare is_declined outcome left m,
      );
    }

blank-IsCounted : (r : TickResult) → IsBlank r → IsCounted r
blank-IsCounted r c = record {
  placed = rw c.undecided c.none_placed;
  declines = rw c.undecided c.none_rejected;
}

IsCounted-IsFraming : (v : Service) (t : Inputs) → IsFraming v t (λ l. IsCounted l.result) IsCounted
IsCounted-IsFraming v t = record {
  begins = blank-IsCounted;
  blank = blank-IsCounted;
  ends = λ l c. c;
  retire = λ gone r c. record { placed = c.placed; declines = c.declines };
  fill = fill_remaining-IsCounted;
}

module _ (v : Service) (t : Inputs) where
  -- Where a tick returns, it counts as placed the decisions ENTERED, and as rejected those that the
  -- filters, the sizing or the exchange declined.
  pub tick-IsCounted : (w : World) (r : TickResult) → (tick v t w).0 ≡ ok r → IsCounted r
  tick-IsCounted w r h =
      tick-Gives v t AnySymbol (λ l. IsCounted l.result) IsCounted (IsCounted-IsClosed t)
        (IsCounted-IsFraming v t) (λ s x e. tt) w r h
