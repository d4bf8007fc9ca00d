-- ===== src/Brackets.antt =====
-- src/atlas/execution/brackets.py and src/atlas/execution/idempotency.py: an entry and its protective
-- pair of exits as one operation. SHA-256 in hexadecimal is an argument, `hexdigest`.
pub mod Frame
pub mod Reversal
pub mod Outcome
pub mod Halted
pub mod Replies
pub mod Unreturned
pub mod Success
use atlas_ai_trading.Broker.{OcoAck, OcoRequest, is_order_rejection, place, place_oco}
use atlas_ai_trading.Decimal.{Decimal, div, nought, ◌≺◌, ◌≼◌}
use atlas_ai_trading.Ledger.{
  Opening, OrderRequest, close_position, ledger_actor, link_order_to_position, open_position,
  record_order, submitted, update_order_status,
}
use atlas_ai_trading.Prelude.{
  Bool, false, if◌then◌else◌, none, or_default, some, take, true, ℕ, ◌++◌,
}
use atlas_ai_trading.Prelude.Text.{Text, show_ℕ, text}
use atlas_ai_trading.Registry.{status}
use atlas_ai_trading.Sizing.{ExchangeFilters, round_price_toward}
use atlas_ai_trading.World.{
  Action, Done, Error, ExchangeEnv, OrderAck, OrderSide, PositionSide, Result, arithmetic_error,
  buy, catch, done, entry, entry_did_not_fill, kill_switch_armed_error, log, long, ok, or_raise,
  order_rejection, position_named, pure, raise, raised, risk_rejection, sell, short, stop,
  strategy_named, target, unprotected_position, ◌>>=◌, ◌>>◌,
}

-- `str(side)`
abbrev side_name : OrderSide → Text
side_name buy = text "BUY"
side_name sell = text "SELL"

-- `client_order_id`: the first 31 digits, after a prefix of 5 characters.
unfoldable pub client_order_id : (hexdigest : Text → Text) → ℕ → Text → OrderSide → Text → Text
client_order_id hexdigest strategy_id bar_time side role =
    text "atlas"
    ++ take 31 (
        hexdigest (
          show_ℕ strategy_id
          ++ text "|"
          ++ bar_time
          ++ text "|"
          ++ side_name side
          ++ text "|"
          ++ role))

-- The arguments of `open_bracketed_position`, with the environment of its broker.
pub record Bracket : Type 0 where
  pub exchange_env : ExchangeEnv
  pub strategy_id : ℕ
  pub bar_time : Text
  pub symbol : Text
  pub side : PositionSide
  pub quantity : Decimal
  pub stop_price : Decimal
  pub reference_price : Decimal
  pub target_price : Decimal
  pub filters : ExchangeFilters

pub record BracketResult : Type 0 where
  pub entry_ack : OrderAck
  pub exit_orders : OcoAck
  pub position_id : ℕ
  pub entry_price : Decimal
  pub stop_price : Decimal
  pub target_price : Decimal

abbrev pub entry_side : PositionSide → OrderSide
entry_side long = buy
entry_side short = sell

abbrev pub exit_side : PositionSide → OrderSide
exit_side long = sell
exit_side short = buy

-- `_record_failure`
unfoldable pub record_failure : Text → Error → Action Done
record_failure c kill_switch_armed_error = update_order_status c (text "NOT_SENT")
record_failure c (order_rejection retryable (some status)) = update_order_status c (text "REJECTED")
record_failure c _ = done

-- `_fill_price`; the quotient exists, since the divisor is positive.
abbrev average : Decimal → Decimal → Decimal → Decimal
average fallback value quantity =
    if nought ≺ value then or_default (div value quantity) fallback else fallback

unfoldable pub fill_price : OrderAck → Decimal → Decimal
fill_price ack fallback = elim ack.cummulative_quote_qty [
  | none ↦ fallback
  | some value ↦
      if nought ≺ ack.executed_qty then average fallback value ack.executed_qty else fallback
]

-- `try: m`, whose outcome is looked at.
abbrev pub attempt : {A : Type 0} → Action A → Action (Result A)
attempt m w = let (r, w') = m w in (ok r, w')

-- Record an order before it is sent, and for a position.
abbrev pub record_submitted : Bracket → OrderRequest → Action ℕ
record_submitted b r = record_order r b.strategy_id b.exchange_env submitted

abbrev pub record_for : Bracket → OrderRequest → ℕ → Action Done
record_for b r position_id =
    record_submitted b r >> link_order_to_position r.client_order_id position_id

abbrev pub is_refusal : Error → Bool
is_refusal kill_switch_armed_error = true
is_refusal (order_rejection retryable status) = true
is_refusal entry_did_not_fill = true
is_refusal _ = false

-- Nothing was bought: there is nothing to protect.
abbrev pub require_fill : Bracket → OrderAck → Action Done
require_fill b ack =
    if ack.executed_qty ≼ nought
    then log risk_rejection (strategy_named b.strategy_id) ledger_actor >> raise entry_did_not_fill
    else done

-- The levels that a position was opened with.
pub record Levels : Type 0 where
  pub entry_price : Decimal
  pub stop_level : Decimal
  pub target_level : Decimal

abbrev pub opening_of : Bracket → OrderAck → Levels → Opening
opening_of b ack l = record {
  strategy_id = b.strategy_id;
  symbol = b.symbol;
  side = b.side;
  quantity = ack.executed_qty;
  entry_price = l.entry_price;
  stop_price = l.stop_level;
  target_price = l.target_level;
}

-- The levels on the price grid of the exchange, moved toward the price of the entry.
unfoldable pub levels_of : Bracket → OrderAck → Action Levels
levels_of b ack = do
  let price = fill_price ack b.reference_price
  stop_level ← or_raise (round_price_toward b.filters b.stop_price price) arithmetic_error
  target_level ← or_raise (round_price_toward b.filters b.target_price price) arithmetic_error
  pure (record { entry_price = price; stop_level = stop_level; target_level = target_level })

module _ (hexdigest : Text → Text) where
  -- The order of a role: its id is made of the strategy, the bar, the side and the role.
  abbrev pub id_for : Bracket → OrderSide → Text → Text
  id_for b side role = client_order_id hexdigest b.strategy_id b.bar_time side role

  unfoldable pub entry_request : Bracket → OrderRequest
  entry_request b = record {
    client_order_id = id_for b (entry_side b.side) (text "ENTRY");
    symbol = b.symbol;
    side = entry_side b.side;
    role = entry;
    quantity = b.quantity;
    price = none;
    stop_price = none;
  }

  unfoldable pub stop_request : Bracket → Decimal → Decimal → OrderRequest
  stop_request b quantity level = record {
    client_order_id = id_for b (exit_side b.side) (text "STOP");
    symbol = b.symbol;
    side = exit_side b.side;
    role = stop;
    quantity = quantity;
    price = some level;
    stop_price = some level;
  }

  unfoldable pub target_request : Bracket → Decimal → Decimal → OrderRequest
  target_request b quantity level = record {
    client_order_id = id_for b (exit_side b.side) (text "TARGET");
    symbol = b.symbol;
    side = exit_side b.side;
    role = target;
    quantity = quantity;
    price = some level;
    stop_price = none;
  }

  -- The reversal is a market order, with the role ENTRY.
  unfoldable pub reversal_request : Bracket → Decimal → OrderRequest
  reversal_request b quantity = record {
    client_order_id = id_for b (exit_side b.side) (text "REVERSAL");
    symbol = b.symbol;
    side = exit_side b.side;
    role = entry;
    quantity = quantity;
    price = none;
    stop_price = none;
  }

  unfoldable pub oco_request : Bracket → (quantity stop_level target_level : Decimal) → OcoRequest
  oco_request b quantity stop_level target_level = record {
    list_client_order_id = id_for b (exit_side b.side) (text "EXIT");
    stop_client_order_id = id_for b (exit_side b.side) (text "STOP");
    limit_client_order_id = id_for b (exit_side b.side) (text "TARGET");
    symbol = b.symbol;
    side = exit_side b.side;
    quantity = quantity;
    stop_price = stop_level;
    stop_limit_price = stop_level;
    take_profit_price = target_level;
  }

  -- The placement of the entry, with its failures recorded.
  abbrev pub place_entry : Bracket → Action OrderAck
  place_entry b = catch (place (entry_request b)) λ e.
      if is_refusal e
      then record_failure (entry_request b).client_order_id e >> raise e
      else raise e

  unfoldable pub enter : Bracket → Action OrderAck
  enter b = do
    record_submitted b (entry_request b)
    ack ← place_entry b
    update_order_status (entry_request b).client_order_id ack.status
    require_fill b ack
    pure ack

  -- After the exits were refused: market out, and close the position.
  abbrev after_reversal :
      Bracket → (quantity entry_price : Decimal) → ℕ → Result OrderAck → Action BracketResult
  after_reversal b quantity entry_price position_id (ok ack) = do
    update_order_status (reversal_request b quantity).client_order_id ack.status
    close_position position_id (fill_price ack entry_price)
    log risk_rejection (position_named position_id) ledger_actor
    raise (order_rejection false none)
  after_reversal b quantity entry_price position_id (raised e) =
      if is_order_rejection e
      then record_failure (reversal_request b quantity).client_order_id e
        >> log risk_rejection (strategy_named b.strategy_id) ledger_actor
        >> raise unprotected_position
      else raise e

  unfoldable pub reverse :
      Bracket → (quantity entry_price : Decimal) → ℕ → Error → Action BracketResult
  unfolding stop_request target_request
  reverse b quantity entry_price position_id stop_error = do
    record_failure (id_for b (exit_side b.side) (text "STOP")) stop_error
    record_failure (id_for b (exit_side b.side) (text "TARGET")) stop_error
    record_for b (reversal_request b quantity) position_id
    outcome ← attempt (place (reversal_request b quantity))
    after_reversal b quantity entry_price position_id outcome

  abbrev after_exits : Bracket → OrderAck → Levels → ℕ → Result OcoAck → Action BracketResult
  after_exits b ack l position_id (ok exits) = do
    update_order_status (id_for b (exit_side b.side) (text "STOP")) exits.stop_leg.status
    update_order_status (id_for b (exit_side b.side) (text "TARGET")) exits.take_profit.status
    pure (record {
      entry_ack = ack;
      exit_orders = exits;
      position_id = position_id;
      entry_price = l.entry_price;
      stop_price = l.stop_level;
      target_price = l.target_level;
    })
  after_exits b ack l position_id (raised e) =
      if is_order_rejection e
      then reverse b ack.executed_qty l.entry_price position_id e
      else raise e

  -- The exits of a position that was opened.
  unfoldable pub protect : Bracket → OrderAck → Levels → ℕ → Action BracketResult
  protect b ack l position_id = do
    record_for b (stop_request b ack.executed_qty l.stop_level) position_id
    record_for b (target_request b ack.executed_qty l.target_level) position_id
    outcome ← attempt (place_oco (oco_request b ack.executed_qty l.stop_level l.target_level))
    after_exits b ack l position_id outcome

  unfoldable pub open_bracketed_position : Bracket → Action BracketResult
  open_bracketed_position b = do
    ack ← enter b
    l ← levels_of b ack
    position_id ← open_position (opening_of b ack l)
    link_order_to_position (entry_request b).client_order_id position_id
    protect b ack l position_id
