-- ===== src/Tests/Exchanges.antt =====
-- The broker, its transport and bracketed entries on concrete answers of the exchange.
use atlas_ai_trading.Brackets.{
  enter, entry_request, Bracket, BracketResult, client_order_id, fill_price, levels_of, oco_request,
  open_bracketed_position, protect, record_failure, reversal_request, reverse, stop_request,
  target_request,
}
use atlas_ai_trading.Brackets.Frame.{is_rejected}
use atlas_ai_trading.Brackets.Halted.{IsHalted, bracket-IsHalted, reverse-IsHalted}
use atlas_ai_trading.Brackets.Outcome.{bracket_leaves_nothing_open}
use atlas_ai_trading.Broker.{ack_of, gate, log_refusal, place, place_oco, post}
use atlas_ai_trading.Broker.Gate.{is_blocked, log_of_place, place-audit, place-sent}
use atlas_ai_trading.Broker.Transport.{Attempt, call, http_error, responded}
use atlas_ai_trading.Broker.Transport.Bounds.{call-ends}
use atlas_ai_trading.Decimal.{Decimal, div, nought, of_ℕ, one, round_up, truncate, ◌≺◌, ◌≼◌, ◌⊗◌}
use atlas_ai_trading.KillSwitch.{
  check_can_enter, check_can_place_protective, is_armed, is_valid_record, read_db, read_file,
  read_state,
}
use atlas_ai_trading.Ledger.{
  OrderRequest, close_position, insert_order, link_order_to_position, open_position, open_positions,
  order_row, position, record_order, update_order_status,
}
use atlas_ai_trading.Prelude.{
  List, [], arith, false, if◌then◌else◌, ltb, none, refl, some, true, ℕ, ◌∷◌, ◌≡◌,
}
use atlas_ai_trading.Prelude.Text.{Text, show_ℕ, text, text_eq}
use atlas_ai_trading.Sizing.{round_price_toward}
use atlas_ai_trading.Tests.Fixtures.{halted_world, order_id, world_with}
use atlas_ai_trading.World.{
  Answer, OrderAck, OrderReport, PostOutcome, Reply, World, answers, buy, disarmed, entry, fails,
  live_status, long, ok, order_rejection, sent_order, testnet,
}

abbrev buy_request : OrderRequest
buy_request = record {
  client_order_id = order_id;
  symbol = text "BTCUSDT";
  side = buy;
  role = entry;
  quantity = of_ℕ 2;
  price = none;
  stop_price = none;
}

abbrev empty_report : OrderReport
empty_report = record {
  client_order_id = none;
  order_id = none;
  symbol = none;
  status = none;
  executed_qty = none;
  cummulative_quote_qty = none;
}

abbrev filled_report : OrderReport
filled_report = record empty_report { status = some (text "FILLED"); executed_qty = some (of_ℕ 2) }

abbrev answer_with : OrderReport → List OrderReport → Answer
answer_with r rs = record { report = r; order_list_id = none; order_reports = rs; orders = [] }

abbrev reply : PostOutcome → Reply
reply o = record { outcome = o; armed_meanwhile = none }

abbrev filling_world : World
filling_world =
    world_with disarmed live_status (reply (answers (answer_with filled_report [])) ∷ [])

place-sent_example : (place buy_request filling_world).1.sent ≡ sent_order order_id entry ∷ []
unfolding is_armed read_state read_file read_db is_valid_record
place-sent_example = place-sent buy_request filling_world

place-audit_example :
    (place buy_request filling_world).1.audit
    ≡ (if is_blocked buy_request filling_world then [] else log_of_place buy_request filling_world)
place-audit_example = place-audit buy_request filling_world

-- A network that is busy twice, then answers; one that refuses; one that is always busy.
abbrev busy_twice : ℕ → Attempt ℕ
busy_twice n = if ltb n 2 then http_error 503 else responded 1

call-ends_example : ((call 3 2 busy_twice).outcome ≡ ok 1) × ((call 3 2 busy_twice).requests ≡ 3)
call-ends_example = call-ends 3 2 busy_twice 2 (λ i h. ground arith) refl (omega arith)

-- A digest that is good enough for a test: the text itself.
abbrev no_digest : Text → Text
no_digest s = s

abbrev bracket : Bracket
bracket = record {
  exchange_env = testnet;
  strategy_id = 7;
  bar_time = text "t0";
  symbol = text "BTCUSDT";
  side = long;
  quantity = of_ℕ 2;
  stop_price = of_ℕ 90;
  reference_price = of_ℕ 100;
  target_price = of_ℕ 120;
  filters = record { step_size = one; min_qty = one; min_notional = of_ℕ 5; tick_size = one };
}

-- The entry fills, its exits are refused on their merits, and the reversal fills.
abbrev refusing_world : World
refusing_world = world_with disarmed live_status (
    reply (answers (answer_with filled_report []))
    ∷ reply (fails (order_rejection false (some 400)))
    ∷ reply (answers (answer_with filled_report []))
    ∷ [])

refused : is_rejected (open_bracketed_position no_digest bracket refusing_world).0 ≡ true
unfolding open_bracketed_position enter place is_armed read_state read_file read_db is_valid_record
    record_order insert_order order_row gate check_can_enter post log_refusal entry_request
    record_failure update_order_status levels_of open_position link_order_to_position protect
    reverse place_oco check_can_place_protective close_position position fill_price
    round_price_toward ack_of stop_request target_request reversal_request oco_request
    client_order_id text_eq show_ℕ ◌≺◌ ◌≼◌ div truncate round_up ◌⊗◌
refused = refl

bracket_leaves_nothing_open_example :
    open_positions none (open_bracketed_position no_digest bracket refusing_world).1
    ≡ open_positions none refusing_world
bracket_leaves_nothing_open_example =
    bracket_leaves_nothing_open no_digest bracket refusing_world refl refused

abbrev leg_report : Text → OrderReport
leg_report c = record empty_report { client_order_id = some c; status = some (text "NEW") }

-- The entry fills, and both exits are acknowledged.
abbrev pub protecting_world : World
protecting_world = world_with disarmed live_status (
    reply (answers (answer_with filled_report []))
    ∷ reply (
        answers (
          answer_with empty_report (
            leg_report (text "atlas7|t0|SELL|STOP")
            ∷ leg_report (text "atlas7|t0|SELL|TARGET")
            ∷ [])))
    ∷ [])

abbrev ack_named : Text → Text → Decimal → OrderAck
ack_named c s executed = record {
  client_order_id = c;
  exchange_order_id = [];
  symbol = text "BTCUSDT";
  status = s;
  executed_qty = executed;
  cummulative_quote_qty = none;
}

abbrev protected : BracketResult
protected = record {
  entry_ack = ack_named (text "atlas7|t0|BUY|ENTRY") (text "FILLED") (of_ℕ 2);
  exit_orders = record {
    order_list_id = [];
    stop_leg = ack_named (text "atlas7|t0|SELL|STOP") (text "NEW") nought;
    take_profit = ack_named (text "atlas7|t0|SELL|TARGET") (text "NEW") nought;
  };
  position_id = 101;
  entry_price = of_ℕ 100;
  stop_price = of_ℕ 90;
  target_price = of_ℕ 120;
}

armed_world : is_armed halted_world ≡ true
unfolding is_armed read_state read_file read_db is_valid_record
armed_world = refl

bracket-IsHalted_example :
    IsHalted halted_world (open_bracketed_position no_digest bracket halted_world)
bracket-IsHalted_example = bracket-IsHalted no_digest bracket halted_world armed_world refl

reverse-IsHalted_example : IsHalted halted_world (
    reverse no_digest bracket
      (of_ℕ 2)
      (of_ℕ 100)
      50
      (order_rejection false (some 400))
      halted_world)
reverse-IsHalted_example =
    reverse-IsHalted no_digest bracket (of_ℕ 2) (of_ℕ 100) 50 (order_rejection false (some 400))
      halted_world armed_world refl
