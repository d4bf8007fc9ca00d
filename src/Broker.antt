-- ===== src/Broker.antt =====
-- src/atlas/execution/broker.py, `BinanceSpotBroker`: orders are signed and sent after the gate of the
-- kill switch, and both the intent and its result are logged. Signing and JSON are not modelled: a POST
-- takes the next of the world's replies, and a broker without replies is one without a transport.
pub mod Gate
pub mod Legs
pub mod Transport
use atlas_ai_trading.Decimal.{Decimal, nought, ◌⊕◌, ◌≺◌, ◌≼◌}
use atlas_ai_trading.KillSwitch.{check_can_enter, check_can_place_protective}
use atlas_ai_trading.Ledger.{OrderRequest, ledger_actor}
use atlas_ai_trading.Prelude.{
  Bool, List, Option, [], false, if◌then◌else◌, keep, none, or_default, some, true, ◌&&◌, ◌++◌, ◌∷◌,
}
use atlas_ai_trading.Prelude.Text.{Text, text, text_eq}
use atlas_ai_trading.World.{
  Action, Answer, Done, Error, KillSwitchRecord, OrderAck, OrderReport, OrderRole, OrderSide,
  PostOutcome, Reply, Result, Sent, World, answers, answers_otherwise, atlas_error, attribute_error,
  catch, entry, entry_did_not_fill, fails, file_holds, log, ok, order_intent, order_named,
  order_rejection, order_result, pure, raise, raised, result_of, row_holds, sent_oco, sent_order,
  stop, target, ◌>>=◌, ◌>>◌,
}

-- Other processes may arm the kill switch while a POST is under way.
abbrev meanwhile : Option KillSwitchRecord → World → World
meanwhile none w = w
meanwhile (some r) w = record w { kill_file = file_holds r; kill_row = row_holds r }

abbrev answer_of : PostOutcome → Result PostOutcome
answer_of (fails e) = raised e
answer_of (answers a) = ok (answers a)
answer_of answers_otherwise = ok answers_otherwise

abbrev post_with : List Reply → Sent → Action PostOutcome
post_with [] s w = (raised atlas_error, w)
post_with (r ∷ rs) s w = (
  answer_of r.outcome,
  meanwhile r.armed_meanwhile (record w { replies = rs; sent = w.sent ++ s ∷ [] }),
)

-- `self._require_transport().post(url, headers)`
unfoldable pub post : Sent → Action PostOutcome
post s w = post_with w.replies s w

-- `except OrderRejection`: what the error says of the placement, if it is one.
abbrev pub is_order_rejection : Error → Bool
is_order_rejection (order_rejection retryable status) = true
is_order_rejection entry_did_not_fill = true
is_order_rejection _ = false

-- The result is logged where the order was refused, and the exception goes on.
unfoldable pub log_refusal : Text → Error → Action PostOutcome
log_refusal c e =
    if is_order_rejection e
    then log order_result (result_of c false) ledger_actor >> raise e
    else raise e

-- `raw.get(key, default)` for the keys of an order; a value that is not an object has no `get`.
abbrev unknown : Text
unknown = text "UNKNOWN"

unfoldable pub ack_of : OrderRequest → OrderReport → OrderAck
ack_of r a = record {
  client_order_id = or_default a.client_order_id r.client_order_id;
  exchange_order_id = or_default a.order_id [];
  symbol = or_default a.symbol r.symbol;
  status = or_default a.status unknown;
  executed_qty = or_default a.executed_qty nought;
  cummulative_quote_qty = a.cummulative_quote_qty;
}

abbrev parse_ack : OrderRequest → PostOutcome → Action OrderAck
parse_ack r (answers a) = pure (ack_of r a.report)
parse_ack r answers_otherwise = raise attribute_error
parse_ack r (fails e) = raise e

-- The gate of a role.
unfoldable pub gate : OrderRole → Action Done
unfolding check_can_enter check_can_place_protective
gate entry = check_can_enter
gate stop = check_can_place_protective
gate target = check_can_place_protective

unfoldable pub place : OrderRequest → Action OrderAck
place r = do
  gate r.role
  log order_intent (order_named r.client_order_id) ledger_actor
  raw ← catch (post (sent_order r.client_order_id r.role)) (log_refusal r.client_order_id)
  ack ← parse_ack r raw
  log order_result (result_of ack.client_order_id true) ledger_actor
  pure ack

pub record OcoRequest : Type 0 where
  pub list_client_order_id : Text
  pub stop_client_order_id : Text
  pub limit_client_order_id : Text
  pub symbol : Text
  pub side : OrderSide
  pub quantity : Decimal
  pub stop_price : Decimal
  pub stop_limit_price : Decimal
  pub take_profit_price : Decimal

pub record OcoAck : Type 0 where
  pub order_list_id : Text
  pub stop_leg : OrderAck
  pub take_profit : OrderAck

-- `by_client_id.get(client_id)`: of two reports with one id, the later.
unfoldable pub report_of : Text → List OrderReport → Option OrderReport
report_of c [] = none
report_of c (r ∷ rs) = elim (report_of c rs) [
  | some s ↦ some s
  | none ↦ if text_eq (or_default r.client_order_id []) c then some r else none
]

-- `raw.get("orderReports") or raw.get("orders") or []`
abbrev first_nonempty : List OrderReport → List OrderReport → List OrderReport
first_nonempty [] ys = ys
first_nonempty (x ∷ xs) ys = x ∷ xs

abbrev pub reports_in : Answer → List OrderReport
reports_in a = first_nonempty a.order_reports a.orders

abbrev new_status : Text
new_status = text "NEW"

unfoldable pub leg_ack : OcoRequest → Text → OrderReport → OrderAck
leg_ack q c r = record {
  client_order_id = c;
  exchange_order_id = or_default r.order_id [];
  symbol = or_default r.symbol q.symbol;
  status = or_default r.status new_status;
  executed_qty = or_default r.executed_qty nought;
  cummulative_quote_qty = r.cummulative_quote_qty;
}

abbrev two_legs : OcoRequest → Text → Option OrderReport → Option OrderReport → Result OcoAck
two_legs q i none t = raised (order_rejection false none)
two_legs q i (some s) none = raised (order_rejection false none)
two_legs q i (some s) (some t) = ok (record {
  order_list_id = i;
  stop_leg = leg_ack q q.stop_client_order_id s;
  take_profit = leg_ack q q.limit_client_order_id t;
})

unfoldable pub parse_oco : OcoRequest → PostOutcome → Result OcoAck
parse_oco q (answers a) =
    two_legs q (or_default a.order_list_id []) (report_of q.stop_client_order_id (reports_in a))
      (report_of q.limit_client_order_id (reports_in a))
parse_oco q answers_otherwise = raised (order_rejection false none)
parse_oco q (fails e) = raised e

unfoldable pub place_oco : OcoRequest → Action OcoAck
unfolding check_can_place_protective
place_oco q = do
  check_can_place_protective
  log order_intent (order_named q.list_client_order_id) ledger_actor
  raw ← catch (post (sent_oco q.list_client_order_id)) (log_refusal q.list_client_order_id)
  ack ← λ w. (parse_oco q raw, w)
  log order_result (result_of q.list_client_order_id true) ledger_actor
  pure ack

-- A row of `account_snapshot`, `AssetBalance`.
pub record AssetBalance : Type 0 where
  pub asset : Text
  pub free : Decimal
  pub locked : Decimal

unfoldable pub total : AssetBalance → Decimal
total b = b.free ⊕ b.locked

-- `balances[asset] = …`
unfoldable pub set_balance : AssetBalance → List AssetBalance → List AssetBalance
set_balance b [] = b ∷ []
set_balance b (c ∷ cs) = if text_eq c.asset b.asset then b ∷ cs else c ∷ set_balance b cs

-- Assets of which nothing is held are left out.
snapshot_from : List AssetBalance → List AssetBalance → List AssetBalance
snapshot_from balances [] = balances
snapshot_from balances (b ∷ bs) =
    snapshot_from
      (if (b.free ≼ nought) && (b.locked ≼ nought) then balances else set_balance b balances) bs

unfoldable pub account_snapshot : List AssetBalance → List AssetBalance
unfolding snapshot_from set_balance
account_snapshot = snapshot_from []

unfoldable pub account_balances : List AssetBalance → List AssetBalance
account_balances bs = keep (λ b. nought ≺ b.free) (account_snapshot bs)
