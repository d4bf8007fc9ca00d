-- ===== src/Registry.antt =====
-- src/atlas/strategy/registry.py: the strategies and their lifecycle. A spec is what the registry keeps
-- of it, its content hash, symbol and timeframe; its payload is not modelled.
pub mod Rows
pub mod Idempotence
use atlas_ai_trading.Ledger.{has_strategy_id}
use atlas_ai_trading.Prelude.{
  Bool, List, Option, [], false, find, if◌then◌else◌, keep, leb, map, none, not, some, true,
  update_where, ℕ, ◌&&◌, ◌++◌, ◌∷◌,
}
use atlas_ai_trading.Prelude.Text.{Text, text_eq}
use atlas_ai_trading.World.{
  Action, Done, Strategy, StrategyStatus, World, candidate, gets, incubating, live_status, modify,
  promoted, pure, raise_if, rejected, retired, suspended, uuid4, value_error, verified, ◌>>=◌, ◌>>◌,
}

pub record SpecKey : Type 0 where
  pub content_hash : Text
  pub symbol : Text
  pub timeframe : Text

abbrev pub has_spec : Text → Strategy → Bool
has_spec h s = text_eq s.spec_hash h

abbrev pub new_strategy : SpecKey → ℕ → ℕ → Strategy
new_strategy k id now = record {
  id = id;
  spec_hash = k.content_hash;
  symbol = k.symbol;
  timeframe = k.timeframe;
  status = candidate;
  created_at = now;
  status_at = now;
  retired_at = none;
  retire_reason = none;
}

unfoldable pub insert_strategy : SpecKey → Action ℕ
insert_strategy k = do
  id ← uuid4
  modify λ w. record w { strategies = w.strategies ++ new_strategy k id w.clock ∷ [] }
  pure id

-- A spec that is already there is not registered again.
unfoldable pub register : SpecKey → Action ℕ
register k w = elim (find (has_spec k.content_hash) w.strategies) [
  | some s ↦ pure s.id w
  | none ↦ insert_strategy k w
]

-- `status`
abbrev status_of_row : Option Strategy → Option StrategyStatus
status_of_row none = none
status_of_row (some s) = some s.status

unfoldable pub status : ℕ → World → Option StrategyStatus
status i w = status_of_row (find (has_strategy_id i) w.strategies)

abbrev pub same_status : StrategyStatus → StrategyStatus → Bool
same_status candidate candidate = true
same_status verified verified = true
same_status incubating incubating = true
same_status promoted promoted = true
same_status live_status live_status = true
same_status suspended suspended = true
same_status retired retired = true
same_status rejected rejected = true
same_status _ _ = false

-- `self.status(strategy_id) is status`
abbrev pub is_status : Option StrategyStatus → StrategyStatus → Bool
is_status none s = false
is_status (some t) s = same_status t s

abbrev pub is_retired : StrategyStatus → Bool
is_retired s = same_status s retired

abbrev pub with_lifecycle : StrategyStatus → Text → ℕ → Strategy → Strategy
with_lifecycle s reason now row =
    if is_retired s
    then record row {
      status = s;
      status_at = now;
      retired_at = some now;
      retire_reason = some reason;
    }
    else record row { status = s; status_at = now }

-- RETIRED is terminal (MON-06).
unfoldable pub set_status : ℕ → StrategyStatus → Text → Action Done
set_status i s reason = do
  current ← gets (status i)
  raise_if (is_status current retired && not (is_retired s)) value_error
  modify λ w. record w {
    strategies = update_where (has_strategy_id i) (with_lifecycle s reason w.clock) w.strategies;
  }

-- `SELECT id FROM strategies WHERE status = ? ORDER BY created_at`, a stable sort.
insert_by_creation : Strategy → List Strategy → List Strategy
insert_by_creation s [] = s ∷ []
insert_by_creation s (t ∷ ts) =
    let rest = t ∷ insert_by_creation s ts in
    if leb s.created_at t.created_at then s ∷ t ∷ ts else rest

sort_by_creation : List Strategy → List Strategy
sort_by_creation [] = []
sort_by_creation (s ∷ ss) = insert_by_creation s (sort_by_creation ss)

unfoldable pub list_by_status : StrategyStatus → World → List ℕ
unfolding sort_by_creation insert_by_creation
list_by_status s w =
    map (λ (row : Strategy). row.id)
      (sort_by_creation (keep (λ row. same_status row.status s) w.strategies))
