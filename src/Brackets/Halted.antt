-- ===== src/Brackets/Halted.antt =====
-- `open_bracketed_position` and its reversal while the kill switch is armed.
use mathlib.Core.Path.{subst}
use atlas_ai_trading.Brackets.{
  Bracket, BracketResult, after_reversal, attempt, enter, entry_request, exit_side, id_for,
  is_refusal, levels_of, open_bracketed_position, opening_of, place_entry, protect, record_failure,
  record_for, record_submitted, require_fill, reversal_request, reverse,
}
use atlas_ai_trading.Broker.{place}
use atlas_ai_trading.Broker.Gate.{place-blocked}
use atlas_ai_trading.Decimal.{Decimal}
use atlas_ai_trading.KillSwitch.{is_armed}
use atlas_ai_trading.Ledger.{
  OrderRequest, has_client, has_strategy_id, link_order_to_position, open_position, order_row,
  record_order, submitted, update_order_status, with_position, with_status,
}
use atlas_ai_trading.Ledger.Orders.{inserted, record_order_lem}
use atlas_ai_trading.Prelude.{
  List, Option-cases, any, ap, arith, if◌then◌else◌, inl, inr, refl, sym, true, update_where, ℕ,
  ◌+◌, ◌∙◌, ◌≡◌,
}
use atlas_ai_trading.Prelude.Text.{Text, text}
use atlas_ai_trading.World.{
  Action, Done, Error, ExchangeEnv, Order, OrderAck, Result, World, bind-ok, bind-raised,
  catch-raised, kill_switch_armed_error, ok, pure, raise, raised, ◌>>=◌, ◌>>◌,
}

-- A state in which only the orders and the next identifier differ.
abbrev recorded : List Order → ℕ → World → World
recorded os n w = record w { orders = os; uuids = n }

abbrev Records : {A : Type 0} → Action A → World → Type 0
Records {A} m w = (a : A) × (os : List Order) × (n : ℕ) × (m w ≡ (ok a, recorded os n w))

bind-Records :
    {A B : Type 0} (m : Action A) (k : A → Action B) (w : World)
    → Records m w
    → ((a : A) (os : List Order) (n : ℕ) → Records (k a) (recorded os n w))
    → Records (m >>= k) w
bind-Records m k w (a, os, n, e) f =
    let (b, ps, i, d) = f a os n in (b, ps, i, bind-ok m k a w (recorded os n w) e ∙ d)

record_failure_rows :
    (c : Text) (r : Error) (w : World)
    → record_failure c r w ≡ (ok tt, recorded (record_failure c r w).1.orders w.uuids w)
unfolding record_failure update_order_status
record_failure_rows c r w = ground arith

record_failure-Records : (c : Text) (r : Error) (w : World) → Records (record_failure c r) w
record_failure-Records c r w =
    (tt, (record_failure c r w).1.orders, w.uuids, record_failure_rows c r w)

update-Records : (c s : Text) (w : World) → Records (update_order_status c s) w
unfolding update_order_status
update-Records c s w =
    (tt, update_where (has_client c) (with_status s w.clock) w.orders, w.uuids, refl)

link-Records : (c : Text) (i : ℕ) (w : World) → Records (link_order_to_position c i) w
unfolding link_order_to_position
link-Records c i w =
    (tt, update_where (has_client c) (with_position i w.clock) w.orders, w.uuids, refl)

abbrev pub IsKnown : ℕ → World → Type 0
IsKnown i w = any (has_strategy_id i) w.strategies ≡ true

record_order-Records :
    (r : OrderRequest) (i : ℕ) (env : ExchangeEnv) (s : Text) (w : World)
    → IsKnown i w
    → Records (record_order r i env s) w
record_order-Records r i env s w k = elim (Option-cases (order_row r.client_order_id w)) [
  | inl n ↦ (
    w.uuids,
    (inserted r i env s w).orders,
    w.uuids + 1,
    ground (arith, record_order_lem r i env s w),
  )
  | inr (o, e) ↦ (o.id, w.orders, w.uuids, ground (arith, record_order_lem r i env s w))
]

record_for-Records :
    (b : Bracket) (r : OrderRequest) (i : ℕ) (w : World)
    → IsKnown b.strategy_id w
    → Records (record_for b r i) w
record_for-Records b r i w k =
    bind-Records (record_submitted b r) (λ _. link_order_to_position r.client_order_id i) w
      (record_order-Records r b.strategy_id b.exchange_env submitted w k)
      (λ _ os n. link-Records r.client_order_id i (recorded os n w))

-- The kill switch does not look at the orders.
armed_after :
    (os : List Order) (n : ℕ) (w : World) → is_armed w ≡ true → is_armed (recorded os n w) ≡ true
unfolding is_armed
armed_after os n w h = h

-- Ends in the exception of the kill switch, and nothing but orders were written.
abbrev pub IsHalted : {A : Type 0} → World → Result A × World → Type 0
IsHalted w out =
    (out.0 ≡ raised kill_switch_armed_error)
    × (out.1.sent ≡ w.sent)
    × (out.1.positions ≡ w.positions)

bind-IsHalted :
    {A B : Type 0} (m : Action A) (k : A → Action B) (w : World)
    → Records m w
    → ((a : A) (os : List Order) (n : ℕ) → IsHalted w (k a (recorded os n w)))
    → IsHalted w ((m >>= k) w)
bind-IsHalted m k w (a, os, n, e) f =
    subst (IsHalted w) (sym (bind-ok m k a w (recorded os n w) e)) (f a os n)

-- What raises it skips the rest.
halts_early :
    {A B : Type 0} (m : Action A) (k : A → Action B) (w : World)
    → IsHalted w (m w)
    → IsHalted w ((m >>= k) w)
halts_early m k w h =
    subst (IsHalted w)
      (sym (bind-raised m k kill_switch_armed_error w (m w).1 (ap (λ r. (r, (m w).1)) h.0)))
      (refl, h.1, h.2)

module _ (hexdigest : Text → Text) where
  -- The reversal of an unprotected entry is stopped by the kill switch, as an entry is: an armed switch
  -- makes it raise, with the position as it was and nothing sent, where the strategy is known.
  pub reverse-IsHalted :
      (b : Bracket) (quantity entry_price : Decimal) (i : ℕ) (e : Error) (w : World)
      → is_armed w ≡ true
      → IsKnown b.strategy_id w
      → IsHalted w (reverse hexdigest b quantity entry_price i e w)
  unfolding reverse reversal_request
  reverse-IsHalted b quantity entry_price i e w h k =
      let stop_id = id_for hexdigest b (exit_side b.side) (text "STOP") in
      let target_id = id_for hexdigest b (exit_side b.side) (text "TARGET") in
      let reversal = reversal_request hexdigest b quantity in
      let finish = after_reversal hexdigest b quantity entry_price i in
      let send = attempt (place reversal) >>= finish in
      let record_it = record_for b reversal i >> send in
      bind-IsHalted (record_failure stop_id e) (λ _. record_failure target_id e >> record_it) w
        (record_failure-Records stop_id e w)
        λ _ os n.
          bind-IsHalted (record_failure target_id e) (λ _. record_it) (recorded os n w)
            (record_failure-Records target_id e (recorded os n w))
            λ _ ps m.
              bind-IsHalted (record_for b reversal i) (λ _. send) (recorded ps m w)
                (record_for-Records b reversal i (recorded ps m w) k)
                λ _ qs l.
                  (let v = recorded qs l w in
                    let blocked = place-blocked reversal v refl (armed_after qs l w h) in
                    subst (λ p. IsHalted (recorded ps m w) (finish p.0 p.1)) (sym blocked)
                      (refl, refl, refl))

  -- The entry itself is refused by the gate.
  place_entry-IsHalted :
      (b : Bracket) (w : World) → is_armed w ≡ true → IsHalted w (place_entry hexdigest b w)
  unfolding entry_request
  place_entry-IsHalted b w h =
      let request = entry_request hexdigest b in
      let blocked = place-blocked request w refl h in
      let rows = record_failure_rows request.client_order_id kill_switch_armed_error w in
      let handler : Error → Action OrderAck = λ e.
        if is_refusal e then record_failure request.client_order_id e >> raise e else raise e in
      let note : Done → Action OrderAck = λ _. raise kill_switch_armed_error in
      let os = (record_failure request.client_order_id kill_switch_armed_error w).1.orders in
      subst (IsHalted w)
        (sym (
          catch-raised (place request) handler kill_switch_armed_error w w blocked
          ∙ bind-ok (record_failure request.client_order_id kill_switch_armed_error) note tt w
              (recorded os w.uuids w) rows))
        (refl, refl, refl)

  -- While the kill switch is armed, and where the strategy is known, a bracket ends in the exception of
  -- the kill switch: nothing is sent to the exchange and no position is opened.
  pub bracket-IsHalted :
      (b : Bracket) (w : World)
      → is_armed w ≡ true
      → IsKnown b.strategy_id w
      → IsHalted w (open_bracketed_position hexdigest b w)
  unfolding open_bracketed_position enter
  bracket-IsHalted b w h k =
      let request = entry_request hexdigest b in
      let c = request.client_order_id in
      let filled_or_raise : OrderAck → Action OrderAck =
        λ ack. update_order_status c ack.status >>= λ _. require_fill b ack >>= λ _. pure ack in
      let rest : OrderAck → Action BracketResult = λ ack. levels_of b ack >>= λ l.
      open_position (opening_of b ack l) >>= λ i.
      link_order_to_position c i >>= λ _. protect hexdigest b ack l i in
      halts_early (enter hexdigest b) rest w (
        bind-IsHalted (record_submitted b request)
          (λ _. place_entry hexdigest b >>= filled_or_raise) w
          (record_order-Records request b.strategy_id b.exchange_env submitted w k)
          (λ _ os n.
            halts_early (place_entry hexdigest b) filled_or_raise (recorded os n w)
              (place_entry-IsHalted b (recorded os n w) (armed_after os n w h))))
