-- ===== src/Broker/Gate.antt =====
-- What `BinanceSpotBroker.place` and `place_oco` send, log and leave alone.
use atlas_ai_trading.Broker.{
  OcoRequest, ack_of, gate, is_order_rejection, log_refusal, place, place_oco, post,
}
use atlas_ai_trading.KillSwitch.{is_armed}
use atlas_ai_trading.Ledger.{OrderRequest, ledger_actor}
use atlas_ai_trading.Prelude.{
  Bool, List, [], arith, false, if◌then◌else◌, not, or_default, true, ◌&&◌, ◌++◌, ◌∷◌, ◌≡◌,
}
use atlas_ai_trading.World.{
  AuditEventType, Entry, Payload, PostOutcome, World, answers, answers_otherwise, entry, fails,
  kill_switch_armed_error, order_intent, order_named, order_result, raised, result_of, same_role,
  sent_oco, sent_order,
}

-- The requests that the gate stops.
abbrev pub is_blocked : OrderRequest → World → Bool
is_blocked r w = same_role r.role entry && is_armed w

-- An entry is refused while the kill switch is armed, before anything is logged or sent.
pub place-blocked :
    (r : OrderRequest) (w : World)
    → r.role ≡ entry
    → is_armed w ≡ true
    → place r w ≡ (raised kill_switch_armed_error, w)
unfolding place gate
place-blocked r w e h = ground arith

abbrev pub has_transport : World → Bool
has_transport w = elim w.replies [ [] ↦ false | r ∷ rs ↦ true ]

-- An order is sent, once, exactly where there is a transport and the gate lets it through.
pub place-sent :
    (r : OrderRequest) (w : World)
    → (place r w).1.sent ≡ (
        if not (is_blocked r w) && has_transport w
        then w.sent ++ sent_order r.client_order_id r.role ∷ []
        else w.sent)
unfolding place gate post log_refusal
place-sent r w = ground arith

-- The protective pair is sent whatever the state of the kill switch.
pub place_oco-sent :
    (q : OcoRequest) (w : World)
    → (place_oco q w).1.sent
      ≡ (if has_transport w then w.sent ++ sent_oco q.list_client_order_id ∷ [] else w.sent)
unfolding place_oco post log_refusal
place_oco-sent q w = ground arith

abbrev entry_of : AuditEventType → Payload → World → Entry
entry_of t p w = record { event_type = t; payload = p; actor = ledger_actor; at = w.clock }

-- What is logged after the answer: nothing where it is lost in another way than by a refusal.
abbrev log_with : OrderRequest → World → List Entry → PostOutcome → List Entry
log_with r w xs (answers a) =
    let c = or_default a.report.client_order_id r.client_order_id in
    xs ++ entry_of order_result (result_of c true) w ∷ []
log_with r w xs answers_otherwise = xs
log_with r w xs (fails e) =
    if is_order_rejection e
    then xs ++ entry_of order_result (result_of r.client_order_id false) w ∷ []
    else xs

abbrev pub log_of_place : OrderRequest → World → List Entry
log_of_place r w =
    let intent = w.audit ++ entry_of order_intent (order_named r.client_order_id) w ∷ [] in
    elim w.replies [ [] ↦ intent | reply ∷ rs ↦ log_with r w intent reply.outcome ]

-- Every order that passes the gate has its intent logged, before its result where there is one, and
-- whether or not an answer comes; an order that the gate stops is not logged.
pub place-audit :
    (r : OrderRequest) (w : World)
    → (place r w).1.audit ≡ (if is_blocked r w then w.audit else log_of_place r w)
unfolding place gate post log_refusal ack_of
place-audit r w = ground arith

-- Placing changes no table of the ledger.
abbrev pub SameTables : World → World → Type 0
SameTables v w =
    (v.orders ≡ w.orders)
    × (v.fills ≡ w.fills)
    × (v.positions ≡ w.positions)
    × (v.strategies ≡ w.strategies)
    × (v.uuids ≡ w.uuids)
    × (v.clock ≡ w.clock)

pub place-SameTables : (r : OrderRequest) (w : World) → SameTables (place r w).1 w
unfolding place gate post log_refusal
place-SameTables r w = ground arith

pub place_oco-SameTables : (q : OcoRequest) (w : World) → SameTables (place_oco q w).1 w
unfolding place_oco post log_refusal
place_oco-SameTables q w = ground arith
