-- ===== src/Ingest/Closing.antt =====
-- When a fill closes a position, `_close_if_exit_filled`.
use mathlib.Core.Path.{subst}
use mathlib.Core.Option.{some-injective}
use atlas_ai_trading.Decimal.{Decimal, ◌≺◌}
use atlas_ai_trading.Ingest.{close_if_exit_filled, if_open, if_protective, protected_position}
use atlas_ai_trading.Ledger.{
  filled_quantity, has_position_id, is_open, ledger_actor, order_row, position,
}
use atlas_ai_trading.Ledger.Positions.{close_position_lem, closed_rows}
use atlas_ai_trading.Prelude.{
  Bool-cases, Option, Option-cases, [], and_then, arith, find, if◌then◌else◌, inl, inr, none, some,
  sym, true, ℕ, ◌++◌, ◌∷◌, ◌≡◌,
}
use atlas_ai_trading.Prelude.Tables.{find_hits}
use atlas_ai_trading.Prelude.Text.{Text}
use atlas_ai_trading.World.{Position, World, ok, position_named, reconciliation}

-- A position that is found is found again by its own id.
position_self :
    (i : ℕ) (w : World) (q : Position) → position i w ≡ some q → position q.id w ≡ some q
unfolding position
position_self i w q e =
    let hit = find_hits (has_position_id i) w.positions q e in
    let same : q.id ≡ i = ground arith in
    subst (λ j. find (has_position_id j) w.positions ≡ some q) (sym same) e

if_open-some : (q p : Position) → if_open q ≡ some p → (q ≡ p) × (is_open p ≡ true)
if_open-some q p h = elim (Bool-cases (is_open q)) [
  | inl o ↦
      let same = some-injective q p (rw o at h) in (same, subst (λ x. is_open x ≡ true) same o)
  | inr o ↦ ground arith
]

open_at :
    (j : Option ℕ) (w : World) (p : Position)
    → and_then j (λ i. and_then (position i w) if_open) ≡ some p
    → (position p.id w ≡ some p) × (is_open p ≡ true)
open_at none w p h = cc
open_at (some i) w p h = elim (Option-cases (position i w)) [
  | inl n ↦ ground arith
  | inr (q, e) ↦
      let found = if_open-some q p (rw e at h) in
      (subst (λ x. position x.id w ≡ some x) found.0 (position_self i w q e), found.1)
]

-- A protected position is open, and found by its own id.
pub protected-open :
    (c : Text) (w : World) (p : Position)
    → protected_position c w ≡ some p
    → (position p.id w ≡ some p) × (is_open p ≡ true)
unfolding protected_position
protected-open c w p h = elim (Option-cases (order_row c w)) [
  | inl n ↦ ground arith
  | inr (o, e) ↦ open_at (if_protective o.role o.position_id) w p (rw e at h)
]

-- The state after the close.
abbrev pub closed_by : Position → Decimal → World → World
closed_by p price w = record w {
  positions = (closed_rows p.id p price w).positions;
  audit =
      w.audit
      ++ record {
        event_type = reconciliation;
        payload = position_named p.id;
        actor = ledger_actor;
        at = w.clock;
      }
        ∷ [];
}

pub close_if_exit_filled_lem :
    (c : Text) (price : Decimal) (w : World)
    → close_if_exit_filled c price w ≡ elim (protected_position c w) [
      | none ↦ (ok none, w)
      | some p ↦
          if filled_quantity c w ≺ p.quantity
          then (ok none, w)
          else (ok (some p.id), closed_by p price w)
    ]
unfolding close_if_exit_filled
close_if_exit_filled_lem c price w = elim (Option-cases (protected_position c w)) [
  | inl n ↦ ground arith
  | inr (p, e) ↦
      let found = protected-open c w p e in ground (arith, close_position_lem p.id price w, found)
]
