-- ===== src/Ledger/Valuation.antt =====
-- `Ledger.deployed_notional` and `Ledger.realised_returns` of src/atlas/execution/ledger.py: what the
-- open positions are worth, and the returns of the closed ones.
use atlas_ai_trading.Decimal.{Decimal, div, nought, ◌≺◌, ◌⊕◌, ◌⊗◌}
use atlas_ai_trading.Ledger.{is_open, open_positions}
use atlas_ai_trading.Prelude.{
  List, Option, [], if◌then◌else◌, keep, leb, none, not, or_default, some, ℕ, ◌&&◌, ◌==◌, ◌∷◌,
}
use atlas_ai_trading.Prelude.Text.{Text, text_eq}
use atlas_ai_trading.World.{Position, World}

-- A dict from symbols to prices.
abbrev pub Prices : Type 0
Prices = List (Text × Decimal)

unfoldable pub price_of : Text → Prices → Option Decimal
price_of s [] = none
price_of s ((t, p) ∷ ps) = if text_eq t s then some p else price_of s ps

-- Marked value of the open positions; one whose symbol has no price is left out.
abbrev add_marked : Decimal → Position → Option Decimal → Decimal
add_marked total p none = total
add_marked total p (some price) = total ⊕ p.quantity ⊗ price

deployed_from : Prices → Decimal → List Position → Decimal
deployed_from prices total [] = total
deployed_from prices total (p ∷ ps) =
    deployed_from prices (add_marked total p (price_of p.symbol prices)) ps

unfoldable pub deployed_notional : Prices → World → Decimal
unfolding deployed_from open_positions price_of
deployed_notional prices w = deployed_from prices nought (open_positions none w)

-- `ORDER BY closed_at`, a stable sort.
abbrev closing_time : Position → ℕ
closing_time p = or_default p.closed_at 0

insert_by_close : Position → List Position → List Position
insert_by_close p [] = p ∷ []
insert_by_close p (q ∷ qs) =
    let rest = q ∷ insert_by_close p qs in
    if leb (closing_time p) (closing_time q) then p ∷ q ∷ qs else rest

sort_by_close : List Position → List Position
sort_by_close [] = []
sort_by_close (p ∷ ps) = insert_by_close p (sort_by_close ps)

-- The return of a closed position over its entry notional, if that is positive.
abbrev return_onto : List Decimal → Option Decimal → List Decimal
return_onto rest none = rest
return_onto rest (some r) = r ∷ rest

abbrev return_of : Position → Option Decimal
return_of p = elim p.realised_pnl [
  | none ↦ none
  | some pnl ↦
      let notional = p.entry_price ⊗ p.quantity in
      if nought ≺ notional then div pnl notional else none
]

returns_of : List Position → List Decimal
returns_of [] = []
returns_of (p ∷ ps) = return_onto (returns_of ps) (return_of p)

unfoldable pub realised_returns : ℕ → World → List Decimal
unfolding returns_of sort_by_close insert_by_close
realised_returns strategy_id w =
    returns_of
      (sort_by_close (keep (λ p. not (is_open p) && p.strategy_id == strategy_id) w.positions))
