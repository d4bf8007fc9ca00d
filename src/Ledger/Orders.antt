-- ===== src/Ledger/Orders.antt =====
-- The order table: `record_order` and the updates of its rows.
use atlas_ai_trading.Ledger.{
  OrderRequest, has_client, has_strategy_id, insert_order, new_order, order_row, record_order,
}
use atlas_ai_trading.Prelude.{
  Bool-cases, Option, Option-cases, [], any, arith, if◌then◌else◌, inl, inr, none, some, ℕ, ◌++◌,
  ◌+◌, ◌∷◌, ◌≡◌,
}
use atlas_ai_trading.Prelude.Tables.{find-append}
use atlas_ai_trading.Prelude.Text.{Text, text_eq_refl}
use atlas_ai_trading.World.{ExchangeEnv, Order, World, integrity_error, ok, raised}

-- The state after the insertion of an order.
abbrev pub inserted : OrderRequest → ℕ → ExchangeEnv → Text → World → World
inserted r sid env status w = record w {
  uuids = w.uuids + 1;
  orders = w.orders ++ new_order r sid env status w.uuids w.clock ∷ [];
}

abbrev pub takes_uuid : World → World
takes_uuid w = record w { uuids = w.uuids + 1 }

insert_order_lem :
    (r : OrderRequest) (sid : ℕ) (env : ExchangeEnv) (status : Text) (w : World)
    → insert_order r sid env status w ≡ (
        if any (has_strategy_id sid) w.strategies
        then (ok w.uuids, inserted r sid env status w)
        else (raised integrity_error, takes_uuid w))
unfolding insert_order
insert_order_lem r sid env status w = ground arith

-- The cases of `record_order`.
pub record_order_lem :
    (r : OrderRequest) (sid : ℕ) (env : ExchangeEnv) (status : Text) (w : World)
    → record_order r sid env status w ≡ elim (order_row r.client_order_id w) [
      | some o ↦ (ok o.id, w)
      | none ↦
          if any (has_strategy_id sid) w.strategies
          then (ok w.uuids, inserted r sid env status w)
          else (raised integrity_error, takes_uuid w)
    ]
unfolding record_order
record_order_lem r sid env status w = ground (arith, insert_order_lem r sid env status w)

-- The row that an insertion adds is found under its client order id, which no other row has.
order_row-inserted :
    (r : OrderRequest) (sid : ℕ) (env : ExchangeEnv) (status : Text) (w : World)
    → order_row r.client_order_id w ≡ none
    → order_row r.client_order_id (inserted r sid env status w)
      ≡ some (new_order r sid env status w.uuids w.clock)
unfolding order_row
order_row-inserted r sid env status w n =
    rw (find-append (has_client r.client_order_id) w.orders, n, text_eq_refl r.client_order_id)

-- The id under which `order_row` finds an order.
abbrev pub row_id : Option Order → Option ℕ
row_id none = none
row_id (some o) = some o.id

-- An order that `record_order` has recorded is found under its client order id.
pub order_row-record_order :
    (r : OrderRequest) (sid : ℕ) (env : ExchangeEnv) (status : Text) (w : World) (id : ℕ)
    → (record_order r sid env status w).0 ≡ ok id
    → row_id (order_row r.client_order_id (record_order r sid env status w).1) ≡ some id
order_row-record_order r sid env status w id = elim (Option-cases (order_row r.client_order_id w)) [
  | inl n ↦ elim (Bool-cases (any (has_strategy_id sid) w.strategies)) [
    | inl s ↦ rw (record_order_lem, n, s, order_row-inserted r sid env status w n) λ e. cc
    | inr s ↦ rw (record_order_lem, n, s) λ e. cc
  ]
  | inr (o, f) ↦ rw (record_order_lem, f, f) λ e. cc
]

-- Recording an order under a client order id that is recorded already, with whatever other fields, for
-- whatever strategy, returns the id of the first row and changes nothing.
pub record_order_idempotent :
    (r again : OrderRequest) (sid other : ℕ) (env env' : ExchangeEnv) (status status' : Text)
    (w : World) (id : ℕ)
    → (record_order r sid env status w).0 ≡ ok id
    → again.client_order_id ≡ r.client_order_id
    → let w' = (record_order r sid env status w).1 in
      record_order again other env' status' w' ≡ (ok id, w')
record_order_idempotent r again sid other env env' status status' w id e same =
    let w' = (record_order r sid env status w).1 in
    elim (Option-cases (order_row r.client_order_id w')) [
      | inl n ↦ absurd (cc (order_row-record_order r sid env status w id e))
      | inr (o, f) ↦
          rw (record_order_lem again other env' status' w', same, f)
            (cc (order_row-record_order r sid env status w id e))
    ]
