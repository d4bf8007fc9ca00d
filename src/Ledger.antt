-- ===== src/Ledger.antt =====
-- src/atlas/execution/ledger.py, with `OrderRequest` of src/atlas/execution/broker.py: the tables of
-- orders, fills and positions. Rows stand in the order of their insertion; the foreign keys and the
-- unique columns of src/atlas/db/schema.sql are the checks that an insertion makes.
pub mod Orders
pub mod Fills
pub mod Positions
pub mod Valuation
pub mod Invariant
pub mod Calls
use atlas_ai_trading.Decimal.{Decimal, decimal, sum, ◌⊖◌, ◌⊗◌}
use atlas_ai_trading.Prelude.{
  Bool, List, Option, [], any, false, find, if◌then◌else◌, is_some, keep, map, none, not, some,
  true, update_where, ℕ, ◌&&◌, ◌++◌, ◌==◌, ◌∷◌,
}
use atlas_ai_trading.Prelude.Int.{negsuc, pos}
use atlas_ai_trading.Prelude.Text.{Text, text, text_eq, upper}
use atlas_ai_trading.World.{
  Action, Done, ExchangeEnv, FillRow, Order, OrderRole, OrderSide, Position, PositionSide, Strategy,
  World, entry, fill_of, fill_recorded, gets, integrity_error, log, long, modify, or_raise, pure,
  raise, raise_if, short, stop, target, uuid4, value_error, ◌>>=◌, ◌>>◌,
}

pub record OrderRequest : Type 0 where
  pub client_order_id : Text
  pub symbol : Text
  pub side : OrderSide
  pub role : OrderRole
  pub quantity : Decimal
  pub price : Option Decimal
  pub stop_price : Option Decimal

-- `OrderRequest.order_type`
unfoldable pub order_type_of : OrderRole → Text
order_type_of entry = text "MARKET"
order_type_of stop = text "STOP_LOSS_LIMIT"
order_type_of target = text "LIMIT"

-- `Fill`
pub record Fill : Type 0 where
  pub order_client_id : Text
  pub quantity : Decimal
  pub price : Decimal
  pub fee : Decimal
  pub fee_asset : Text
  pub filled_at : ℕ
  pub exchange_trade_id : ℕ

abbrev pub ledger_actor : Text
ledger_actor = text "execution"

-- `WHERE client_order_id = ?`
abbrev pub has_client : Text → Order → Bool
has_client c o = text_eq o.client_order_id c

abbrev pub has_order_id : ℕ → Order → Bool
has_order_id i o = o.id == i

abbrev pub has_trade : ℕ → FillRow → Bool
has_trade t f = f.exchange_trade_id == t

abbrev pub has_position_id : ℕ → Position → Bool
has_position_id i p = p.id == i

abbrev pub has_strategy_id : ℕ → Strategy → Bool
has_strategy_id i s = s.id == i

unfoldable pub order_row : Text → World → Option Order
order_row c w = find (has_client c) w.orders

unfoldable pub position : ℕ → World → Option Position
position i w = find (has_position_id i) w.positions

-- The row that `record_order` inserts.
abbrev pub new_order : OrderRequest → ℕ → ExchangeEnv → Text → ℕ → ℕ → Order
new_order r strategy_id env status id now = record {
  id = id;
  client_order_id = r.client_order_id;
  strategy_id = strategy_id;
  exchange_order_id = none;
  symbol = upper r.symbol;
  side = r.side;
  order_type = order_type_of r.role;
  role = r.role;
  quantity = r.quantity;
  price = r.price;
  status = status;
  exchange_env = env;
  position_id = none;
  created_at = now;
  updated_at = now;
}

-- `REFERENCES strategies(id)`
abbrev pub require_strategy : ℕ → Action Done
require_strategy i w = raise_if (not (any (has_strategy_id i) w.strategies)) integrity_error w

unfoldable pub insert_order : OrderRequest → ℕ → ExchangeEnv → Text → Action ℕ
insert_order r strategy_id env status = do
  id ← uuid4
  require_strategy strategy_id
  modify λ w. record w { orders = w.orders ++ new_order r strategy_id env status id w.clock ∷ [] }
  pure id

-- Idempotent on the client order id (EXEC-03).
unfoldable pub record_order : OrderRequest → ℕ → ExchangeEnv → Text → Action ℕ
record_order r strategy_id env status w = elim (order_row r.client_order_id w) [
  | some o ↦ pure o.id w
  | none ↦ insert_order r strategy_id env status w
]

-- `status: str = "SUBMITTED"`
abbrev pub submitted : Text
submitted = text "SUBMITTED"

abbrev pub with_position : ℕ → ℕ → Order → Order
with_position i now o = record o { position_id = some i; updated_at = now }

unfoldable pub link_order_to_position : Text → ℕ → Action Done
link_order_to_position c i =
    modify λ w. record w { orders = update_where (has_client c) (with_position i w.clock) w.orders }

abbrev pub with_status : Text → ℕ → Order → Order
with_status s now o = record o { status = s; updated_at = now }

unfoldable pub update_order_status : Text → Text → Action Done
update_order_status c s =
    modify λ w. record w { orders = update_where (has_client c) (with_status s w.clock) w.orders }

abbrev pub new_fill : Fill → ℕ → ℕ → FillRow
new_fill f order_id id = record {
  id = id;
  order_id = order_id;
  quantity = f.quantity;
  price = f.price;
  fee = f.fee;
  fee_asset = f.fee_asset;
  filled_at = f.filled_at;
  exchange_trade_id = f.exchange_trade_id;
}

unfoldable pub insert_fill : Fill → ℕ → Action Bool
insert_fill f order_id = do
  id ← uuid4
  modify λ w. record w { fills = w.fills ++ new_fill f order_id id ∷ [] }
  log fill_recorded (fill_of f.order_client_id f.exchange_trade_id) ledger_actor
  pure true

-- `False` for a trade that was already seen; an order that ATLAS does not know is a `ValueError`.
unfoldable pub record_fill : Fill → Action Bool
record_fill f w = elim (order_row f.order_client_id w) [
  | none ↦ raise value_error w
  | some o ↦
      if any (has_trade f.exchange_trade_id) w.fills then pure false w else insert_fill f o.id w
]

-- The quantities of `fills f JOIN orders o ON o.id = f.order_id WHERE o.client_order_id = ?`.
abbrev pub is_of_client : List Order → Text → FillRow → Bool
is_of_client orders c f = any (λ o. has_order_id f.order_id o && has_client c o) orders

abbrev pub quantities : List FillRow → List Decimal
quantities [] = []
quantities (f ∷ fs) = f.quantity ∷ quantities fs

unfoldable pub filled_quantity : Text → World → Decimal
unfolding sum
filled_quantity c w = sum (quantities (keep (is_of_client w.orders c) w.fills))

-- The arguments of `open_position`.
pub record Opening : Type 0 where
  pub strategy_id : ℕ
  pub symbol : Text
  pub side : PositionSide
  pub quantity : Decimal
  pub entry_price : Decimal
  pub stop_price : Decimal
  pub target_price : Decimal

abbrev pub new_position : Opening → ℕ → ℕ → Position
new_position a id now = record {
  id = id;
  strategy_id = a.strategy_id;
  symbol = upper a.symbol;
  side = a.side;
  quantity = a.quantity;
  entry_price = a.entry_price;
  stop_price = a.stop_price;
  target_price = a.target_price;
  opened_at = now;
  closed_at = none;
  exit_price = none;
  realised_pnl = none;
}

unfoldable pub open_position : Opening → Action ℕ
open_position a = do
  id ← uuid4
  require_strategy a.strategy_id
  modify λ w. record w { positions = w.positions ++ new_position a id w.clock ∷ [] }
  pure id

-- `Position.is_open`
abbrev pub is_open : Position → Bool
is_open p = not (is_some p.closed_at)

abbrev pub direction : PositionSide → Decimal
direction long = decimal (pos 1) 0
direction short = decimal (negsuc 0) 0

-- The realised profit of a position at an exit price, gross of fees.
unfoldable pub pnl_of : Position → Decimal → Decimal
pnl_of p exit = (exit ⊖ p.entry_price) ⊗ p.quantity ⊗ direction p.side

abbrev pub closed_with : ℕ → Decimal → Decimal → Position → Position
closed_with now exit pnl p = record p {
  closed_at = some now;
  exit_price = some exit;
  realised_pnl = some pnl;
}

unfoldable pub close_position : ℕ → Decimal → Action Decimal
close_position i exit = do
  p ← or_raise (← gets (position i)) value_error
  raise_if (not (is_open p)) value_error
  modify λ w. record w {
    positions =
        update_where (has_position_id i) (closed_with w.clock exit (pnl_of p exit)) w.positions;
  }
  pure (pnl_of p exit)

-- The open positions, all or those of one strategy.
abbrev pub is_of_strategy : Option ℕ → Position → Bool
is_of_strategy none p = true
is_of_strategy (some i) p = p.strategy_id == i

unfoldable pub open_positions : Option ℕ → World → List Position
open_positions strategy_id w = keep (λ p. is_open p && is_of_strategy strategy_id p) w.positions

unfoldable pub open_symbols : World → List Text
unfolding open_positions
open_symbols w = map (λ (p : Position). p.symbol) (open_positions none w)
