-- ===== src/Ledger/Invariant.antt =====
-- What holds of the three tables between two calls of the ledger.
use atlas_ai_trading.Decimal.{Decimal}
use atlas_ai_trading.Ledger.{
  Fill, Opening, OrderRequest, closed_with, has_client, has_order_id, has_position_id, has_trade,
  new_fill, new_order, new_position, order_row, pnl_of,
}
use atlas_ai_trading.Ledger.Fills.{filled, same_id}
use atlas_ai_trading.Ledger.Orders.{inserted}
use atlas_ai_trading.Ledger.Positions.{closed_rows, opened, same_position}
use atlas_ai_trading.Prelude.{
  All, All-append, Bool, Bool-cases, List, [], any, any-append, ap, arith, false, find, inl, inr,
  is_some, none, refl, some, true, update_where, ℕ, ◌++◌, ◌+◌, ◌<◌, ◌==◌, ◌∙◌, ◌∷◌, ◌≡◌,
}
use atlas_ai_trading.Prelude.Tables.{
  All-map, All-update_where, IsDistinct, any-find, any-update_where, append-IsDistinct, find_misses,
  update_where-IsDistinct,
}
use atlas_ai_trading.Prelude.Text.{Text, text_eq}
use atlas_ai_trading.World.{ExchangeEnv, FillRow, Order, Position, World}

abbrev pub same_client : Order → Order → Bool
same_client o p = has_client p.client_order_id o

abbrev pub same_trade : FillRow → FillRow → Bool
same_trade f g = has_trade f.exchange_trade_id g

-- One row for each client order id, order id, exchange trade and position id; every fill is of an
-- order; ids come from `uuid4`.
pub record IsValid (w : World) : Type 0 where
  pub one_per_client : IsDistinct same_client w.orders
  pub one_per_id : IsDistinct same_id w.orders
  pub order_ids : All (λ o. o.id < w.uuids) w.orders
  pub one_per_trade : IsDistinct same_trade w.fills
  pub fills_joined : All (λ f. any (has_order_id f.order_id) w.orders ≡ true) w.fills
  pub one_per_position : IsDistinct same_position w.positions
  pub position_ids : All (λ p. p.id < w.uuids) w.positions

fresh_order :
    (os : List Order) (n : ℕ)
    → All (λ o. o.id < n) os
    → (p : Order) → p.id ≡ n
    → any (λ o. same_id o p) os ≡ false
fresh_order [] n h p e = refl
fresh_order (o ∷ os) n h p e = ground (arith, fresh_order os n h.1 p e)

fresh_position :
    (ps : List Position) (n : ℕ)
    → All (λ p. p.id < n) ps
    → (q : Position) → q.id ≡ n
    → any (λ p. same_position p q) ps ≡ false
fresh_position [] n h q e = refl
fresh_position (p ∷ ps) n h q e = ground (arith, fresh_position ps n h.1 q e)

any-same_trade :
    (fs : List FillRow) (t : ℕ) (g : FillRow)
    → g.exchange_trade_id ≡ t
    → any (λ f. same_trade f g) fs ≡ any (has_trade t) fs
any-same_trade [] t g e = refl
any-same_trade (f ∷ fs) t g e = ground (arith, any-same_trade fs t g e)

id_of_found :
    (test : Order → Bool) (os : List Order) (o : Order)
    → find test os ≡ some o
    → any (has_order_id o.id) os ≡ true
id_of_found test os o e = elim (Bool-cases (any (has_order_id o.id) os)) [
  | inl h ↦ h
  | inr n ↦ ground (arith, find_misses (has_order_id o.id) test os o e n)
]

pub inserted-IsValid :
    (r : OrderRequest) (sid : ℕ) (env : ExchangeEnv) (status : Text) (w : World)
    → order_row r.client_order_id w ≡ none
    → IsValid w
    → IsValid (inserted r sid env status w)
unfolding order_row
inserted-IsValid r sid env status w n v =
    let o : Order = new_order r sid env status w.uuids w.clock in
    record {
      one_per_client =
          append-IsDistinct same_client w.orders o v.one_per_client
            (any-find (has_client r.client_order_id) w.orders ∙ ap is_some n);
      one_per_id =
          append-IsDistinct same_id w.orders o v.one_per_id
            (fresh_order w.orders w.uuids v.order_ids o refl);
      order_ids =
          All-append (λ o. o.id < w.uuids + 1) w.orders (o ∷ [])
            (All-map _ (λ o. o.id < w.uuids + 1) (λ o h. omega arith) w.orders v.order_ids)
            (omega arith);
      one_per_trade = v.one_per_trade;
      fills_joined =
          All-map _ (λ f. any (has_order_id f.order_id) (w.orders ++ o ∷ []) ≡ true)
            (λ f h. any-append (has_order_id f.order_id) w.orders (o ∷ []) ∙ ground arith) w.fills
            v.fills_joined;
      one_per_position = v.one_per_position;
      position_ids =
          All-map _ (λ p. p.id < w.uuids + 1) (λ p h. omega arith) w.positions v.position_ids;
    }

pub takes_uuid-IsValid : (w : World) → IsValid w → IsValid (record w { uuids = w.uuids + 1 })
takes_uuid-IsValid w v = record {
  one_per_client = v.one_per_client;
  one_per_id = v.one_per_id;
  order_ids = All-map _ (λ o. o.id < w.uuids + 1) (λ o h. omega arith) w.orders v.order_ids;
  one_per_trade = v.one_per_trade;
  fills_joined = v.fills_joined;
  one_per_position = v.one_per_position;
  position_ids =
      All-map _ (λ p. p.id < w.uuids + 1) (λ p h. omega arith) w.positions v.position_ids;
}

pub filled-IsValid :
    (f : Fill) (o : Order) (w : World)
    → order_row f.order_client_id w ≡ some o
    → any (has_trade f.exchange_trade_id) w.fills ≡ false
    → IsValid w
    → IsValid (filled f o.id w)
unfolding order_row
filled-IsValid f o w e new v =
    let base = takes_uuid-IsValid w v in
    record {
      one_per_client = v.one_per_client;
      one_per_id = v.one_per_id;
      order_ids = base.order_ids;
      one_per_trade =
          append-IsDistinct same_trade w.fills (new_fill f o.id w.uuids) v.one_per_trade
            (any-same_trade w.fills f.exchange_trade_id (new_fill f o.id w.uuids) refl ∙ new);
      fills_joined =
          All-append (λ f. any (has_order_id f.order_id) w.orders ≡ true) w.fills
            (new_fill f o.id w.uuids ∷ []) v.fills_joined
            (id_of_found (has_client f.order_client_id) w.orders o e, tt);
      one_per_position = v.one_per_position;
      position_ids = base.position_ids;
    }

-- An update of a row that leaves its two keys alone.
pub updated-IsValid :
    (c : Text) (g : Order → Order)
    → ((o : Order) → (g o).id ≡ o.id)
    → ((o : Order) → (g o).client_order_id ≡ o.client_order_id)
    → (w : World) → IsValid w
    → IsValid (record w { orders = update_where (has_client c) g w.orders })
updated-IsValid c g ids clients w v = record {
  one_per_client =
      update_where-IsDistinct same_client (has_client c) g
        (λ o p. ap (λ t. text_eq t p.client_order_id) (clients o))
        (λ o p. ap (λ t. text_eq o.client_order_id t) (clients p)) w.orders v.one_per_client;
  one_per_id =
      update_where-IsDistinct same_id (has_client c) g (λ o p. ap (λ k. p.id == k) (ids o))
        (λ o p. ap (λ k. k == o.id) (ids p)) w.orders v.one_per_id;
  order_ids =
      All-update_where (λ o. o.id < w.uuids) (has_client c) g (λ o h. rw (ids o) h) w.orders
        v.order_ids;
  one_per_trade = v.one_per_trade;
  fills_joined =
      All-map _ (λ f. any (has_order_id f.order_id) (update_where (has_client c) g w.orders) ≡ true)
        (λ f h.
          any-update_where (has_order_id f.order_id) (has_client c) g
            (λ o. ap (λ k. k == f.order_id) (ids o)) w.orders
          ∙ h)
        w.fills v.fills_joined;
  one_per_position = v.one_per_position;
  position_ids = v.position_ids;
}

pub opened-IsValid : (a : Opening) (w : World) → IsValid w → IsValid (opened a w)
opened-IsValid a w v =
    let base = takes_uuid-IsValid w v in
    let p : Position = new_position a w.uuids w.clock in
    record {
      one_per_client = v.one_per_client;
      one_per_id = v.one_per_id;
      order_ids = base.order_ids;
      one_per_trade = v.one_per_trade;
      fills_joined = v.fills_joined;
      one_per_position =
          append-IsDistinct same_position w.positions p v.one_per_position
            (fresh_position w.positions w.uuids v.position_ids p refl);
      position_ids =
          All-append (λ p. p.id < w.uuids + 1) w.positions (p ∷ []) base.position_ids (omega arith);
    }

pub closed-IsValid :
    (i : ℕ) (p : Position) (exit : Decimal) (w : World)
    → IsValid w
    → IsValid (closed_rows i p exit w)
closed-IsValid i p exit w v = record {
  one_per_client = v.one_per_client;
  one_per_id = v.one_per_id;
  order_ids = v.order_ids;
  one_per_trade = v.one_per_trade;
  fills_joined = v.fills_joined;
  one_per_position =
      update_where-IsDistinct same_position (has_position_id i)
        (closed_with w.clock exit (pnl_of p exit)) (λ q r. refl) (λ q r. refl) w.positions
        v.one_per_position;
  position_ids =
      All-update_where (λ q. q.id < w.uuids) (has_position_id i)
        (closed_with w.clock exit (pnl_of p exit)) (λ q h. h) w.positions v.position_ids;
}
