-- ===== src/Ledger/Calls.antt =====
-- Any calls of the ledger, one after the other, and what they keep.
use atlas_ai_trading.Decimal.{Decimal}
use atlas_ai_trading.Ledger.{
  Fill, Opening, OrderRequest, close_position, has_strategy_id, has_trade, is_open,
  link_order_to_position, open_position, order_row, position, record_fill, record_order,
  update_order_status, with_position, with_status,
}
use atlas_ai_trading.Ledger.Fills.{record_fill_lem}
use atlas_ai_trading.Ledger.Invariant.{
  IsValid, closed-IsValid, filled-IsValid, inserted-IsValid, opened-IsValid, takes_uuid-IsValid,
  updated-IsValid,
}
use atlas_ai_trading.Ledger.Orders.{record_order_lem}
use atlas_ai_trading.Ledger.Positions.{close_position_lem, open_position_lem}
use atlas_ai_trading.Prelude.{Bool-cases, List, Option-cases, [], any, inl, inr, refl, ℕ, ◌∷◌}
use atlas_ai_trading.Prelude.Text.{Text}
use atlas_ai_trading.World.{ExchangeEnv, World}

pub record_order-IsValid :
    (r : OrderRequest) (sid : ℕ) (env : ExchangeEnv) (status : Text) (w : World)
    → IsValid w
    → IsValid (record_order r sid env status w).1
record_order-IsValid r sid env status w v = elim (Option-cases (order_row r.client_order_id w)) [
  | inr (o, e) ↦ rw (record_order_lem r sid env status w, e) v
  | inl n ↦ elim (Bool-cases (any (has_strategy_id sid) w.strategies)) [
    | inl s ↦
        rw (record_order_lem r sid env status w, n, s) (inserted-IsValid r sid env status w n v)
    | inr s ↦ rw (record_order_lem r sid env status w, n, s) (takes_uuid-IsValid w v)
  ]
]

pub record_fill-IsValid : (f : Fill) (w : World) → IsValid w → IsValid (record_fill f w).1
record_fill-IsValid f w v = elim (Option-cases (order_row f.order_client_id w)) [
  | inl n ↦ rw (record_fill_lem f w, n) v
  | inr (o, e) ↦ elim (Bool-cases (any (has_trade f.exchange_trade_id) w.fills)) [
    | inl seen ↦ rw (record_fill_lem f w, e, seen) v
    | inr new ↦ rw (record_fill_lem f w, e, new) (filled-IsValid f o w e new v)
  ]
]

pub link_order_to_position-IsValid :
    (c : Text) (i : ℕ) (w : World) → IsValid w → IsValid (link_order_to_position c i w).1
unfolding link_order_to_position
link_order_to_position-IsValid c i w v =
    updated-IsValid c (with_position i w.clock) (λ o. refl) (λ o. refl) w v

pub update_order_status-IsValid :
    (c s : Text) (w : World) → IsValid w → IsValid (update_order_status c s w).1
unfolding update_order_status
update_order_status-IsValid c s w v =
    updated-IsValid c (with_status s w.clock) (λ o. refl) (λ o. refl) w v

pub open_position-IsValid : (a : Opening) (w : World) → IsValid w → IsValid (open_position a w).1
open_position-IsValid a w v = elim (Bool-cases (any (has_strategy_id a.strategy_id) w.strategies)) [
  | inl s ↦ rw (open_position_lem a w, s) (opened-IsValid a w v)
  | inr s ↦ rw (open_position_lem a w, s) (takes_uuid-IsValid w v)
]

pub close_position-IsValid :
    (i : ℕ) (exit : Decimal) (w : World) → IsValid w → IsValid (close_position i exit w).1
close_position-IsValid i exit w v = elim (Option-cases (position i w)) [
  | inl n ↦ rw (close_position_lem i exit w, n) v
  | inr (p, e) ↦ elim (Bool-cases (is_open p)) [
    | inl o ↦ rw (close_position_lem i exit w, e, o) (closed-IsValid i p exit w v)
    | inr c ↦ rw (close_position_lem i exit w, e, c) v
  ]
]

-- A call of the ledger.
pub data LedgerCall : Type 0 where
  recording : OrderRequest → ℕ → ExchangeEnv → Text → LedgerCall
  linking : Text → ℕ → LedgerCall
  updating : Text → Text → LedgerCall
  filling : Fill → LedgerCall
  opening : Opening → LedgerCall
  closing : ℕ → Decimal → LedgerCall

abbrev pub after_call : LedgerCall → World → World
after_call (recording r sid env status) w = (record_order r sid env status w).1
after_call (linking c i) w = (link_order_to_position c i w).1
after_call (updating c s) w = (update_order_status c s w).1
after_call (filling f) w = (record_fill f w).1
after_call (opening a) w = (open_position a w).1
after_call (closing i exit) w = (close_position i exit w).1

abbrev pub after_calls : List LedgerCall → World → World
after_calls [] w = w
after_calls (c ∷ cs) w = after_calls cs (after_call c w)

-- Every call of the ledger keeps the tables valid, whether it succeeds or raises: so does any sequence
-- of calls, with any arguments.
pub after_calls-IsValid :
    (cs : List LedgerCall) (w : World) → IsValid w → IsValid (after_calls cs w)
after_calls-IsValid [] w v = v
after_calls-IsValid (recording r sid env status ∷ cs) w v =
    after_calls-IsValid cs _ (record_order-IsValid r sid env status w v)
after_calls-IsValid (linking c i ∷ cs) w v =
    after_calls-IsValid cs _ (link_order_to_position-IsValid c i w v)
after_calls-IsValid (updating c s ∷ cs) w v =
    after_calls-IsValid cs _ (update_order_status-IsValid c s w v)
after_calls-IsValid (filling f ∷ cs) w v = after_calls-IsValid cs _ (record_fill-IsValid f w v)
after_calls-IsValid (opening a ∷ cs) w v = after_calls-IsValid cs _ (open_position-IsValid a w v)
after_calls-IsValid (closing i exit ∷ cs) w v =
    after_calls-IsValid cs _ (close_position-IsValid i exit w v)
