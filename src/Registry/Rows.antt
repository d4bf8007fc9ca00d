-- ===== src/Registry/Rows.antt =====
-- What a new status makes of the rows of `strategies`.
use atlas_ai_trading.Ledger.{has_strategy_id}
use atlas_ai_trading.Prelude.{
  List, [], arith, find, if◌then◌else◌, none, refl, some, update_where, ℕ, ◌==◌, ◌∷◌, ◌≡◌,
}
use atlas_ai_trading.Prelude.Text.{Text}
use atlas_ai_trading.Registry.{with_lifecycle}
use atlas_ai_trading.World.{Strategy, StrategyStatus}

pub find-set :
    (i j : ℕ) (s : StrategyStatus) (reason : Text) (now : ℕ) (ss : List Strategy)
    → find (has_strategy_id i) (update_where (has_strategy_id j) (with_lifecycle s reason now) ss)
      ≡ elim (find (has_strategy_id i) ss) [
        | none ↦ none
        | some row ↦ some (if i == j then with_lifecycle s reason now row else row)
      ]
find-set i j s reason now [] = refl
find-set i j s reason now (row ∷ ss) = ground (arith, find-set i j s reason now ss)
