-- ===== src/Reconcile.antt =====
-- src/atlas/execution/reconcile.py: local open orders against those of the exchange, and the balance.
pub mod Convergence
pub mod Arming
pub mod Unrecorded
use atlas_ai_trading.Decimal.{Decimal, abs, ◌⊖◌, ◌≼◌}
use atlas_ai_trading.KillSwitch.{arm}
use atlas_ai_trading.Ledger.{has_client, with_status}
use atlas_ai_trading.Prelude.{
  Bool, List, Option, [], any, false, if◌then◌else◌, keep, length, none, not, or_default, some,
  true, update_where, ℕ, ◌&&◌, ◌++◌, ◌+◌, ◌||◌, ◌∷◌,
}
use atlas_ai_trading.Prelude.Text.{Text, repr_texts, show_ℕ, starts_with, text, text_eq}
use atlas_ai_trading.World.{
  Action, Done, Order, World, done, gets, log, modify, pure, reconciled, reconciliation,
  reconciliation_failure, ◌>>=◌, ◌>>◌,
}

-- One entry of the exchange's open orders; each key may be missing.
pub record RemoteOrder : Type 0 where
  pub client_order_id : Option Text
  pub status : Option Text

-- A dict from client order ids, in the order in which the keys came.
abbrev pub Remote : Type 0
Remote = List (Text × RemoteOrder)

unfoldable pub remote_get : Text → Remote → Option RemoteOrder
remote_get c [] = none
remote_get c ((d, r) ∷ m) = if text_eq d c then some r else remote_get c m

-- `d[c] = r`
unfoldable pub remote_set : Text → RemoteOrder → Remote → Remote
remote_set c r [] = (c, r) ∷ []
remote_set c r ((d, s) ∷ m) = if text_eq d c then (d, r) ∷ m else (d, s) ∷ remote_set c r m

-- An entry without an id, or with an empty one, is left out.
abbrev pub remote_add : Option Text → RemoteOrder → Remote → Remote
remote_add none r m = m
remote_add (some []) r m = m
remote_add (some (a ∷ c)) r m = remote_set (a ∷ c) r m

unfoldable pub remote_from : Remote → List RemoteOrder → Remote
remote_from m [] = m
remote_from m (r ∷ rs) = remote_from (remote_add r.client_order_id r m) rs

-- `remote` of `reconcile`.
unfoldable pub remote_of : List RemoteOrder → Remote
unfolding remote_from remote_set
remote_of = remote_from []

-- `str(remote_row.get("status", ""))`
abbrev pub remote_status : RemoteOrder → Text
remote_status r = or_default r.status []

-- `status IN ('NEW', 'PARTIALLY_FILLED', 'SUBMITTED')`
unfoldable pub is_open_status : Text → Bool
is_open_status s =
    text_eq s (text "NEW") || text_eq s (text "PARTIALLY_FILLED") || text_eq s (text "SUBMITTED")

unfoldable pub local_open_orders : World → List Order
local_open_orders w = keep (λ o. is_open_status o.status) w.orders

abbrev pub reconciled_closed : Text
reconciled_closed = text "RECONCILED_CLOSED"

-- `ReconciliationReport`
pub record ReconciliationReport : Type 0 where
  pub matched : ℕ
  pub repaired : List Text
  pub unreconcilable : List Text

abbrev pub is_empty : List Text → Bool
is_empty [] = true
is_empty (x ∷ xs) = false

-- `ReconciliationReport.clean`
abbrev pub is_clean : ReconciliationReport → Bool
is_clean r = is_empty r.unreconcilable

-- What the loop carries: the counts and the table of orders.
pub record Repair : Type 0 where
  pub matched : ℕ
  pub repaired : List Text
  pub orders : List Order

-- `UPDATE orders SET status = ?`, and the order is named in the report.
abbrev pub repair_order : ℕ → Text → Text → Repair → Repair
repair_order now c s r = record {
  matched = r.matched;
  repaired = r.repaired ++ c ∷ [];
  orders = update_where (has_client c) (with_status s now) r.orders;
}

abbrev pub match_order : Repair → Repair
match_order r = record r { matched = r.matched + 1 }

-- One round of the loop over the local open orders.
unfoldable pub reconcile_order : ℕ → Order → Option RemoteOrder → Repair → Repair
reconcile_order now l none r = repair_order now l.client_order_id reconciled_closed r
reconcile_order now l (some remote) r =
    if text_eq (remote_status remote) l.status
    then match_order r
    else repair_order now l.client_order_id (remote_status remote) r

unfoldable pub reconcile_loop : ℕ → Remote → List Order → Repair → Repair
reconcile_loop now remote [] r = r
reconcile_loop now remote (l ∷ ls) r =
    reconcile_loop now remote ls (reconcile_order now l (remote_get l.client_order_id remote) r)

-- `remote.keys() - local.keys()`, those that start with "atlas". Python leaves the order open.
abbrev pub atlas : Text
atlas = text "atlas"

unfoldable pub unrecorded : List Order → Remote → List Text
unrecorded locals [] = []
unrecorded locals ((c, r) ∷ m) =
    if not (any (has_client c) locals) && starts_with c atlas
    then c ∷ unrecorded locals m
    else unrecorded locals m

abbrev pub reconcile_actor : Text
reconcile_actor = text "execution"

-- The reason with which the kill switch is armed.
unfoldable pub divergence_reason : List Text → Text
divergence_reason ids =
    text "exchange reports "
    ++ (show_ℕ (length ids) ++ (text " ATLAS order(s) with no local record: " ++ repr_texts ids))

arm_unless_clean : ReconciliationReport → Action Done
arm_unless_clean report =
    if is_clean report
    then done
    else arm reconciliation_failure (divergence_reason report.unreconcilable) reconcile_actor
      >> done

-- The state after the loop, and the report on it.
abbrev pub repairs : World → Remote → Repair
repairs w remote =
    reconcile_loop w.clock remote (local_open_orders w)
      (record { matched = 0; repaired = []; orders = w.orders })

abbrev pub report_on : World → Remote → ReconciliationReport
report_on w remote = record {
  matched = (repairs w remote).matched;
  repaired = (repairs w remote).repaired;
  unreconcilable = unrecorded (local_open_orders w) remote;
}

unfoldable pub reconcile : List RemoteOrder → Action ReconciliationReport
unfolding arm_unless_clean
reconcile exchange_orders = do
  before ← gets (λ w. w)
  let remote = remote_of exchange_orders
  let report = report_on before remote
  modify λ w. record w { orders = (repairs before remote).orders }
  log reconciliation (reconciled report.matched report.repaired report.unreconcilable)
      reconcile_actor
  arm_unless_clean report
  pure report

-- `reconcile_balance`; the reason names the three amounts, whose text is a parameter here.
unfoldable pub reconcile_balance :
    (show : Decimal → Text) → Decimal → Decimal → Decimal → Action Bool
reconcile_balance show expected actual tolerance =
    let drift = abs (expected ⊖ actual) in
    if drift ≼ tolerance then pure true else do
      arm reconciliation_failure
          (text "quote balance drift "
            ++ show drift
            ++ text " exceeds tolerance "
            ++ show tolerance
            ++ text " (expected "
            ++ show expected
            ++ text ", exchange reports "
            ++ show actual
            ++ text ")")
          reconcile_actor
      pure false
