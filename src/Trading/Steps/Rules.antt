-- ===== src/Trading/Steps/Rules.antt =====
-- What may be kept by every change that a decision makes to the loop.
use atlas_ai_trading.Brackets.{BracketResult}
use atlas_ai_trading.Broker.{is_order_rejection}
use atlas_ai_trading.Limits.{can_open_symbol}
use atlas_ai_trading.Prelude.{Bool, Option, any, false, if◌then◌else◌, none, refl, some, true, ◌≡◌}
use atlas_ai_trading.Prelude.Text.{Text, text_eq, upper}
use atlas_ai_trading.Sizing.{SizingResult}
use atlas_ai_trading.Spec.{StrategySpec}
use atlas_ai_trading.Trading.{Inputs}
use atlas_ai_trading.Trading.Decisions.{SymbolDecision, is_entry}
use atlas_ai_trading.Trading.Steps.{
  Loop, Step, after_submit, concluded, continue_with, entering, goes_on, halting, is_halt, mid_tick,
  rejecting, sized_at, stops, symbol_of, with_decision,
}
use atlas_ai_trading.World.{
  Action, DecisionOutcome, Gives, Result, decision_halted, entered, filters_not_available, if-Gives,
  ok, order_rejected, pure, pure-Gives, raise, raise-Gives, raised, risk_rejected,
}

abbrev pub is_declined : DecisionOutcome → Bool
is_declined filters_not_available = true
is_declined risk_rejected = true
is_declined order_rejected = true
is_declined _ = false

-- RISK-08, as the loop asks it: the symbol is open neither in the account nor since the tick began.
abbrev pub MayEnter : Inputs → Text → Loop → Type 0
MayEnter t symbol l =
    (can_open_symbol t.account symbol ≡ true) × (any (text_eq symbol) l.open_now ≡ false)

-- A symbol as it is shown, of one that a spec names and of which something is known.
abbrev pub StandsAs : (Text → Type 0) → Text → Text → Type 0
StandsAs Q shown symbol = (shown ≡ upper symbol) × Q symbol

-- A predicate on the loop that every change keeps; an entry is one that was allowed, and its decision
-- stands under the symbol in upper case.
pub record IsClosed (t : Inputs) (Q : Text → Type 0) (P : Loop → Type 0) : Type 0 where
  pub plain :
      (d : SymbolDecision) (l : Loop)
      → is_entry d.outcome ≡ false
      → is_declined d.outcome ≡ false
      → P l
      → P (with_decision d l)
  pub refusal :
      (d : SymbolDecision) (l : Loop)
      → is_entry d.outcome ≡ false
      → is_declined d.outcome ≡ true
      → P l
      → P (rejecting d l)
  pub halt :
      (reason : Text) (d : SymbolDecision) (l : Loop)
      → is_entry d.outcome ≡ false
      → is_declined d.outcome ≡ false
      → P l
      → P (halting reason d l)
  pub entry :
      (d : SymbolDecision) (symbol : Text) (z : SizingResult) (l : Loop)
      → MayEnter t symbol l
      → StandsAs Q d.symbol symbol
      → P l
      → P (entering (concluded entered d) symbol z l)

abbrev pub Holds : (Loop → Type 0) → Step → Type 0
Holds P (goes_on l) = P l
Holds P (stops l) = P l

-- The symbol under which a strategy stands.
abbrev pub StandsFor : (Text → Type 0) → Text → Option StrategySpec → Type 0
StandsFor Q symbol none = symbol ≡ symbol_of none
StandsFor Q symbol (some s) = StandsAs Q symbol s.symbol

module _ (t : Inputs) (Q : Text → Type 0) (P : Loop → Type 0) (closed : IsClosed t Q P) where
  pub decided-Gives :
      (d : SymbolDecision) (l : Loop)
      → is_entry d.outcome ≡ false
      → is_declined d.outcome ≡ false
      → P l
      → Gives (Holds P) (pure (goes_on (with_decision d l)))
  decided-Gives d l n m c =
      pure-Gives (Holds P) (goes_on (with_decision d l)) (closed.plain d l n m c)

  pub rejected-Gives :
      (d : SymbolDecision) (l : Loop)
      → is_entry d.outcome ≡ false
      → is_declined d.outcome ≡ true
      → P l
      → Gives (Holds P) (pure (goes_on (rejecting d l)))
  rejected-Gives d l n m c =
      pure-Gives (Holds P) (goes_on (rejecting d l)) (closed.refusal d l n m c)

  pub halted-Gives :
      (reason : Text) (d : SymbolDecision) (l : Loop)
      → is_entry d.outcome ≡ false
      → is_declined d.outcome ≡ false
      → P l
      → Gives (Holds P) (pure (stops (halting reason d l)))
  halted-Gives reason d l n m c =
      pure-Gives (Holds P) (stops (halting reason d l)) (closed.halt reason d l n m c)

  pub after_submit-Gives :
      (d : SymbolDecision) (symbol : Text) (z : SizingResult) (l : Loop) (o : Result BracketResult)
      → MayEnter t symbol l
      → StandsAs Q d.symbol symbol
      → P l
      → Gives (Holds P) (after_submit d symbol z l o)
  unfolding after_submit
  after_submit-Gives d symbol z l (ok b) f q c =
      pure-Gives (Holds P) (goes_on (entering (concluded entered (sized_at z d)) symbol z l))
        (closed.entry (sized_at z d) symbol z l f q c)
  after_submit-Gives d symbol z l (raised e) f q c =
      let stopped = concluded decision_halted (sized_at z d) in
      let refused = concluded order_rejected (sized_at z d) in
      if-Gives (Holds P) (is_halt e) (pure (stops (halting mid_tick stopped l)))
        (if is_order_rejection e then pure (goes_on (rejecting refused l)) else raise e)
        (halted-Gives mid_tick stopped l refl refl c)
        (if-Gives (Holds P) (is_order_rejection e) (pure (goes_on (rejecting refused l))) (raise e)
          (rejected-Gives refused l refl refl c) (raise-Gives (Holds P) e))

  pub continue_with-Gives :
      (next : Loop → Action Step) (s : Step)
      → ((l : Loop) → P l → Gives (Holds P) (next l))
      → Holds P s
      → Gives (Holds P) (continue_with next s)
  continue_with-Gives next (goes_on l) h c = h l c
  continue_with-Gives next (stops l) h c = pure-Gives (Holds P) (stops l) c
