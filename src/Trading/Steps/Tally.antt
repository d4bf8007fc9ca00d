-- ===== src/Trading/Steps/Tally.antt =====
-- The counts of placed and rejected entries, which every change keeps.
use atlas_ai_trading.Prelude.{
  Bool, List, [], arith, false, if◌then◌else◌, map, refl, suc, true, ℕ, ◌++◌, ◌+◌, ◌∷◌, ◌≡◌,
}
use atlas_ai_trading.Prelude.Text.{Text}
use atlas_ai_trading.Sizing.{SizingResult}
use atlas_ai_trading.Trading.{Inputs, TickResult, decide}
use atlas_ai_trading.Trading.Decisions.{SymbolDecision, bare_decision, is_entry}
use atlas_ai_trading.Trading.Steps.{Loop, concluded, entering, rejecting}
use atlas_ai_trading.Trading.Steps.Rules.{IsClosed, is_declined}
use atlas_ai_trading.World.{DecisionOutcome, entered}

-- How many decisions have an outcome of a kind.
abbrev pub num_with : (DecisionOutcome → Bool) → List SymbolDecision → ℕ
num_with test [] = 0
num_with test (d ∷ ds) = if test d.outcome then suc (num_with test ds) else num_with test ds

pub record IsCounted (r : TickResult) : Type 0 where
  pub placed : r.entries_placed ≡ num_with is_entry r.decisions
  pub declines : r.entries_rejected ≡ num_with is_declined r.decisions

pub num_with-append :
    (test : DecisionOutcome → Bool) (ds es : List SymbolDecision)
    → num_with test (ds ++ es) ≡ num_with test ds + num_with test es
num_with-append test [] es = omega arith
num_with-append test (d ∷ ds) es = ground (arith, num_with-append test ds es)

pub num_with-bare :
    (test : DecisionOutcome → Bool) (outcome : DecisionOutcome) (ss : List Text)
    → test outcome ≡ false
    → num_with test (map (λ s. bare_decision s outcome) ss) ≡ 0
num_with-bare test outcome [] h = refl
num_with-bare test outcome (s ∷ ss) h = ground (arith, num_with-bare test outcome ss h)

pub decide-IsCounted :
    (d : SymbolDecision) (r : TickResult)
    → is_entry d.outcome ≡ false
    → is_declined d.outcome ≡ false
    → IsCounted r
    → IsCounted (decide d r)
decide-IsCounted d r n m c = record {
  placed = ground (arith, c.placed, num_with-append is_entry r.decisions (d ∷ []));
  declines = ground (arith, c.declines, num_with-append is_declined r.decisions (d ∷ []));
}

pub rejecting-IsCounted :
    (d : SymbolDecision) (l : Loop)
    → is_entry d.outcome ≡ false
    → is_declined d.outcome ≡ true
    → IsCounted l.result
    → IsCounted (rejecting d l).result
rejecting-IsCounted d l n m c = record {
  placed = ground (arith, c.placed, num_with-append is_entry l.result.decisions (d ∷ []));
  declines = ground (arith, c.declines, num_with-append is_declined l.result.decisions (d ∷ []));
}

pub entering-IsCounted :
    (d : SymbolDecision) (symbol : Text) (z : SizingResult) (l : Loop)
    → IsCounted l.result
    → IsCounted (entering (concluded entered d) symbol z l).result
entering-IsCounted d symbol z l c = record {
  placed =
      ground
        (arith, c.placed, num_with-append is_entry l.result.decisions (concluded entered d ∷ []));
  declines = ground (
    arith,
    c.declines,
    num_with-append is_declined l.result.decisions (concluded entered d ∷ []),
  );
}

-- Nothing need be known of the symbols.
abbrev pub AnySymbol : Text → Type 0
AnySymbol symbol = Unit

pub IsCounted-IsClosed : (t : Inputs) → IsClosed t AnySymbol (λ l. IsCounted l.result)
IsCounted-IsClosed t = record {
  plain = λ d l n m c. decide-IsCounted d l.result n m c;
  refusal = λ d l n m c. rejecting-IsCounted d l n m c;
  halt = λ reason d l n m c.
      decide-IsCounted d (record l.result { halted = true; halt_reason = reason }) n m
        (record { placed = c.placed; declines = c.declines });
  entry = λ d symbol z l f q c. entering-IsCounted d symbol z l c;
}
