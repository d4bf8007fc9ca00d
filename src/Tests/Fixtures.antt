-- ===== src/Tests/Fixtures.antt =====
-- States for the tests of the modules beside this one.
use atlas_ai_trading.Decimal.{nought, of_ℕ}
use atlas_ai_trading.Ledger.{Fill, Opening, OrderRequest}
use atlas_ai_trading.Prelude.{List, [], none, some, ◌∷◌}
use atlas_ai_trading.Prelude.Text.{Text, text}
use atlas_ai_trading.World.{
  KillSwitchRecord, KillSwitchState, Order, Position, Reply, Strategy, StrategyStatus, World, armed,
  disarmed, file_holds, live_status, long, row_holds, sell, stop, testnet,
}

abbrev pub operator : Text
operator = text "operator"

abbrev pub kill_record : KillSwitchState → KillSwitchRecord
kill_record s = record { state = s; trigger = none; reason = text "test"; actor = operator; at = 1 }

-- Strategy 7, in a state of its life.
abbrev pub strategy_in : StrategyStatus → Strategy
strategy_in s = record {
  id = 7;
  spec_hash = text "abc";
  symbol = text "BTCUSDT";
  timeframe = text "1h";
  status = s;
  created_at = 1;
  status_at = 1;
  retired_at = none;
  retire_reason = none;
}

-- A world without orders, whose kill switch is in a state, with strategy 7 and an exchange's replies.
abbrev pub world_with : KillSwitchState → StrategyStatus → List Reply → World
world_with k s replies = record {
  clock = 10;
  uuids = 100;
  kill_file = file_holds (kill_record k);
  kill_row = row_holds (kill_record k);
  write_faults = [];
  audit = [];
  orders = [];
  fills = [];
  positions = [];
  strategies = strategy_in s ∷ [];
  promotions = [];
  replies = replies;
  sent = [];
}

abbrev pub calm : World
calm = world_with disarmed live_status []

abbrev pub halted_world : World
halted_world = world_with armed live_status []

abbrev pub order_id : Text
order_id = text "atlas1"

abbrev pub stop_order : OrderRequest
stop_order = record {
  client_order_id = order_id;
  symbol = text "BTCUSDT";
  side = sell;
  role = stop;
  quantity = of_ℕ 2;
  price = none;
  stop_price = none;
}

abbrev pub fill_of_stop : Fill
fill_of_stop = record {
  order_client_id = order_id;
  quantity = of_ℕ 2;
  price = of_ℕ 90;
  fee = nought;
  fee_asset = text "USDT";
  filled_at = 9;
  exchange_trade_id = 55;
}

abbrev pub long_opening : Opening
long_opening = record {
  strategy_id = 7;
  symbol = text "BTCUSDT";
  side = long;
  quantity = of_ℕ 2;
  entry_price = of_ℕ 100;
  stop_price = of_ℕ 90;
  target_price = of_ℕ 120;
}

-- A stop order that is recorded, and an open position 50 that it protects.
abbrev pub stop_row : Order
stop_row = record {
  id = 60;
  client_order_id = order_id;
  strategy_id = 7;
  exchange_order_id = none;
  symbol = text "BTCUSDT";
  side = sell;
  order_type = text "STOP_LOSS_LIMIT";
  role = stop;
  quantity = of_ℕ 2;
  price = none;
  status = text "NEW";
  exchange_env = testnet;
  position_id = some 50;
  created_at = 3;
  updated_at = 3;
}

abbrev pub open_row : Position
open_row = record {
  id = 50;
  strategy_id = 7;
  symbol = text "BTCUSDT";
  side = long;
  quantity = of_ℕ 2;
  entry_price = of_ℕ 100;
  stop_price = of_ℕ 90;
  target_price = of_ℕ 120;
  opened_at = 3;
  closed_at = none;
  exit_price = none;
  realised_pnl = none;
}

abbrev pub trading : World
trading = record calm { orders = stop_row ∷ []; positions = open_row ∷ [] }
