-- ===== src/Reconcile/Convergence.antt =====
-- The statuses of the orders after `reconcile`.
use mathlib.Core.Path.{subst}
use atlas_ai_trading.KillSwitch.{arm}
use atlas_ai_trading.Ledger.{has_client, with_status}
use atlas_ai_trading.Ledger.Invariant.{same_client}
use atlas_ai_trading.Prelude.{
  Bool, Bool-cases, List, Option, [], any, arith, false, find, if◌then◌else◌, inl, inr, keep, none,
  refl, some, true, update_where, ℕ, ◌∙◌, ◌∷◌, ◌≡◌,
}
use atlas_ai_trading.Prelude.Tables.{IsDistinct}
use atlas_ai_trading.Prelude.Text.{Text, text_eq, text_eq_iff, text_eq_refl}
use atlas_ai_trading.Reconcile.{
  Remote, RemoteOrder, Repair, divergence_reason, is_open_status, local_open_orders, reconcile,
  reconcile_actor, reconcile_loop, reconcile_order, reconciled_closed, remote_get, remote_of,
  remote_status, repairs, report_on,
}
use atlas_ai_trading.Reconcile.Arming.{repaired_world}
use atlas_ai_trading.World.{KillSwitchTrigger, Order, World, reconciliation_failure}

-- The status of the order of a client order id.
abbrev pub status_of : Text → List Order → Option Text
status_of c os = elim (find (has_client c) os) [ none ↦ none | some o ↦ some o.status ]

-- What the exchange's entry makes of a status: an order that it does not have is closed.
abbrev pub expected_status : Option RemoteOrder → Text
expected_status none = reconciled_closed
expected_status (some r) = remote_status r

-- One status is written, and no other row's.
status_of-update :
    (c d s : Text) (now : ℕ) (os : List Order)
    → status_of c (update_where (has_client d) (with_status s now) os) ≡ (
        if text_eq d c
        then elim (status_of c os) [ none ↦ none | some t ↦ some s ]
        else status_of c os)
status_of-update c d s now [] = ground arith
status_of-update c d s now (o ∷ os) = ground (
  arith,
  status_of-update c d s now os,
  text_eq_iff o.client_order_id c,
  text_eq_iff o.client_order_id d,
  text_eq_iff d c,
  text_eq_refl c,
)

-- One round of the loop.
status_of-reconcile_order :
    (c : Text) (now : ℕ) (l : Order) (remote : Option RemoteOrder) (r : Repair)
    → (text_eq l.client_order_id c ≡ true → status_of c r.orders ≡ some l.status)
    → status_of c (reconcile_order now l remote r).orders ≡ (
        if text_eq l.client_order_id c then some (expected_status remote) else status_of c r.orders)
unfolding reconcile_order
status_of-reconcile_order c now l none r h =
    ground (arith, status_of-update c l.client_order_id reconciled_closed now r.orders, h)
status_of-reconcile_order c now l (some remote) r h = ground (
  arith,
  status_of-update c l.client_order_id (remote_status remote) now r.orders,
  text_eq_iff (remote_status remote) l.status,
  h,
)

status_of-miss :
    (l : Order) (ls : List Order)
    → any (same_client l) ls ≡ false
    → status_of l.client_order_id ls ≡ none
status_of-miss l [] n = refl
status_of-miss l (o ∷ ls) n = ground (
  arith,
  status_of-miss l ls,
  text_eq_iff o.client_order_id l.client_order_id,
  text_eq_refl l.client_order_id,
)

status_of-head :
    (c : Text) (l : Order) (ls : List Order)
    → text_eq l.client_order_id c ≡ true
    → status_of c (l ∷ ls) ≡ some l.status
status_of-head c l ls e = ground arith

status_of-tail :
    (c : Text) (l : Order) (ls : List Order)
    → text_eq l.client_order_id c ≡ false
    → status_of c (l ∷ ls) ≡ status_of c ls
status_of-tail c l ls e = ground arith

-- The loop, over local rows with one row for each client order id that agree with the table.
status_of-reconcile_loop :
    (c : Text) (now : ℕ) (remote : Remote) (ls : List Order) (r : Repair)
    → IsDistinct same_client ls
    → ((s : Text) → status_of c ls ≡ some s → status_of c r.orders ≡ some s)
    → status_of c (reconcile_loop now remote ls r).orders ≡ elim (status_of c ls) [
      | none ↦ status_of c r.orders
      | some s ↦ some (expected_status (remote_get c remote))
    ]
unfolding reconcile_loop
status_of-reconcile_loop c now remote [] r u h = refl
status_of-reconcile_loop c now remote (l ∷ ls) r u h =
    let first = remote_get l.client_order_id remote in
    let next = reconcile_order now l first r in
    elim (Bool-cases (text_eq l.client_order_id c)) [
      | inl e ↦
          let same = (text_eq_iff l.client_order_id c).0 e in
          let miss = subst (λ d. status_of d ls ≡ none) same (status_of-miss l ls u.0) in
          let one =
            status_of-reconcile_order c now l first r (λ x. h l.status (status_of-head c l ls e)) in
          let rest =
            status_of-reconcile_loop c now remote ls next u.1 (λ s x. ground (arith, miss)) in
          rw e (rest ∙ ground (arith, miss, one, same))
      | inr e ↦
          let one = status_of-reconcile_order c now l first r (λ x. ground arith) in
          let rest =
            status_of-reconcile_loop c now remote ls next u.1
              (λ s x. (ground (arith, one, h s, status_of-tail c l ls))) in
          rw e (rest ∙ ground (arith, one))
    ]

-- Among the rows that a condition keeps, each is the row of its client order id.
any-keep :
    (l : Order) (p : Order → Bool) (ls : List Order)
    → any (same_client l) ls ≡ false
    → any (same_client l) (keep p ls) ≡ false
any-keep l p [] n = refl
any-keep l p (o ∷ ls) n = ground (arith, any-keep l p ls)

keep-IsDistinct :
    (p : Order → Bool) (ls : List Order)
    → IsDistinct same_client ls
    → IsDistinct same_client (keep p ls)
keep-IsDistinct p [] u = tt
keep-IsDistinct p (l ∷ ls) u = elim (Bool-cases (p l)) [
  | inl e ↦ rw e (any-keep l p ls u.0, keep-IsDistinct p ls u.1)
  | inr e ↦ rw e (keep-IsDistinct p ls u.1)
]

status_of-keep :
    (c s : Text) (p : Order → Bool) (ls : List Order)
    → IsDistinct same_client ls
    → status_of c (keep p ls) ≡ some s
    → status_of c ls ≡ some s
status_of-keep c s p [] u e = cc
status_of-keep c s p (l ∷ ls) u e = elim (Bool-cases (text_eq l.client_order_id c)) [
  | inl h ↦
      let same = (text_eq_iff l.client_order_id c).0 h in
      let miss =
        subst (λ d. status_of d (keep p ls) ≡ none) same
          (status_of-miss l (keep p ls) (any-keep l p ls u.0)) in
      ground (arith, miss)
  | inr h ↦ ground (arith, status_of-keep c s p ls u.1)
]

arm-orders :
    (t : KillSwitchTrigger) (reason actor : Text) (w : World)
    → (arm t reason actor w).1.orders ≡ w.orders
unfolding arm
arm-orders t reason actor w = ground arith

reconcile-orders :
    (xs : List RemoteOrder) (w : World)
    → (reconcile xs w).1.orders ≡ (repairs w (remote_of xs)).orders
unfolding reconcile
reconcile-orders xs w = ground (
  arith,
  arm-orders reconciliation_failure (divergence_reason (report_on w (remote_of xs)).unreconcilable)
      reconcile_actor (repaired_world xs w),
)

-- Where no two orders have one client order id: after `reconcile`, returned or raised, every order
-- that was open here has the status that the exchange reports for it, RECONCILED_CLOSED where the
-- exchange does not list it, and the status of every other order is what it was.
pub reconcile-adopts :
    (xs : List RemoteOrder) (w : World) (c : Text)
    → IsDistinct same_client w.orders
    → status_of c (reconcile xs w).1.orders ≡ elim (status_of c (local_open_orders w)) [
      | none ↦ status_of c w.orders
      | some s ↦ some (expected_status (remote_get c (remote_of xs)))
    ]
unfolding local_open_orders
reconcile-adopts xs w c u =
    let is_open_order : Order → Bool = λ o. is_open_status o.status in
    rw (reconcile-orders xs w) (
      status_of-reconcile_loop c w.clock (remote_of xs) (keep is_open_order w.orders)
        (record { matched = 0; repaired = []; orders = w.orders })
        (keep-IsDistinct is_open_order w.orders u)
        (λ s e. status_of-keep c s is_open_order w.orders u e))
