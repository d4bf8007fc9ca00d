-- ===== src/Tests/Ledgers.antt =====
-- The ledger, the ingestion of fills and the reconciliation on concrete tables.
use atlas_ai_trading.Decimal.{of_ℕ}
use atlas_ai_trading.Ingest.{
  Delivery, Trade, at_time, beyond_platform, delivered, ingest_trades, no_commission, no_trades,
}
use atlas_ai_trading.Ingest.Accounting.{ingest_trades-total, outcome, total_of}
use atlas_ai_trading.Ingest.Redelivery.{ingest_again, recorded_of}
use atlas_ai_trading.KillSwitch.{arm, is_armed, is_valid_record}
use atlas_ai_trading.Ledger.{new_fill, submitted}
use atlas_ai_trading.Ledger.Calls.{
  LedgerCall, after_calls, after_calls-IsValid, closing, filling, linking, opening, recording,
}
use atlas_ai_trading.Ledger.Invariant.{IsValid}
use atlas_ai_trading.Prelude.{List, [], arith, map, none, refl, some, true, ℕ, ◌++◌, ◌+◌, ◌∷◌, ◌≡◌}
use atlas_ai_trading.Prelude.Text.{repr_texts, show_ℕ, starts_with, text, text_eq}
use atlas_ai_trading.Reconcile.{
  RemoteOrder, divergence_reason, is_open_status, local_open_orders, reconcile, remote_get,
  remote_of, unrecorded,
}
use atlas_ai_trading.Reconcile.Arming.{reconcile-arms, reconcile-fails_to_arm}
use atlas_ai_trading.Reconcile.Convergence.{reconcile-adopts, status_of}
use atlas_ai_trading.Tests.Fixtures.{
  calm, fill_of_stop, long_opening, order_id, stop_order, trading,
}
use atlas_ai_trading.World.{World, invalid_record, os_error, raised, testnet}

calm-IsValid : IsValid calm
calm-IsValid = record {
  one_per_client = tt;
  one_per_id = tt;
  order_ids = tt;
  one_per_trade = tt;
  fills_joined = tt;
  one_per_position = tt;
  position_ids = tt;
}

abbrev some_calls : List LedgerCall
some_calls =
    recording stop_order 7 testnet submitted
    ∷ opening long_opening
    ∷ linking order_id 101
    ∷ filling fill_of_stop
    ∷ closing 101 (of_ℕ 90)
    ∷ []

after_calls-IsValid_example : IsValid (after_calls some_calls calm)
after_calls-IsValid_example = after_calls-IsValid some_calls calm calm-IsValid

-- Trades: the fill of the stop, one of an order that is not known, and one without a price.
abbrev stop_trade : Trade
stop_trade = record {
  client_order_id = some order_id;
  id = some 55;
  qty = some (of_ℕ 2);
  price = some (of_ℕ 90);
  commission = no_commission;
  commission_asset = none;
  time = at_time 9;
}

abbrev trades : List Delivery
trades =
    delivered stop_trade
    ∷ delivered (record stop_trade { client_order_id = some (text "other"); id = some 56 })
    ∷ delivered (record stop_trade { price = none; id = some 57 })
    ∷ []

-- A fourth has a time that the platform does not have.
abbrev faulty_trades : List Delivery
faulty_trades =
    trades ++ delivered (record stop_trade { time = beyond_platform; id = some 58 }) ∷ []

ingest_again_example :
    let w' = (ingest_trades trades no_trades trading).1 in
    ((ingest_trades trades no_trades w').1 ≡ w')
    × (recorded_of (ingest_trades trades no_trades w').0 ≡ some 0)
ingest_again_example = ingest_again trades no_trades trading

ingest_trades-total_example :
    total_of (ingest_trades faulty_trades no_trades trading).0 ≡ outcome (some os_error) 4
ingest_trades-total_example = ingest_trades-total faulty_trades no_trades trading

abbrev stop_filled : World
stop_filled = record trading { fills = new_fill fill_of_stop 60 61 ∷ [] }

abbrev remote_cancelled : List RemoteOrder
remote_cancelled = record { client_order_id = some order_id; status = some (text "CANCELED") } ∷ []

reconcile-adopts_example :
    status_of order_id (reconcile remote_cancelled trading).1.orders ≡ some (text "CANCELED")
unfolding local_open_orders is_open_status remote_of remote_get text_eq
reconcile-adopts_example = reconcile-adopts remote_cancelled trading order_id (refl, tt)

abbrev remote_unknown : List RemoteOrder
remote_unknown = record { client_order_id = some (text "atlas9"); status = some (text "NEW") } ∷ []

reconcile-arms_example : is_armed (reconcile remote_unknown calm).1 ≡ true
unfolding reconcile local_open_orders remote_of unrecorded divergence_reason arm is_valid_record
    starts_with text_eq repr_texts show_ℕ
reconcile-arms_example = reconcile-arms remote_unknown calm refl (omega arith) (λ e. cc)

abbrev remote_named : ℕ → RemoteOrder
remote_named n = record {
  client_order_id = some (text "atlas012345678901234567890123456789" ++ (65 + n) ∷ []);
  status = some (text "NEW");
}

abbrev twelve_unknown : List RemoteOrder
twelve_unknown = map remote_named (0 ∷ 1 ∷ 2 ∷ 3 ∷ 4 ∷ 5 ∷ 6 ∷ 7 ∷ 8 ∷ 9 ∷ 10 ∷ 11 ∷ [])

reconcile-fails_to_arm_example :
    let (r, w') = reconcile twelve_unknown calm in
    (r ≡ raised invalid_record) × (is_armed w' ≡ is_armed calm)
unfolding local_open_orders remote_of unrecorded starts_with text_eq
reconcile-fails_to_arm_example =
    reconcile-fails_to_arm twelve_unknown calm (omega arith) (ground arith)
