-- ===== src/Brackets/Unreturned.antt =====
-- How the reversal of `open_bracketed_position` ends.
use atlas_ai_trading.Brackets.{
  Bracket, BracketResult, after_reversal, attempt, exit_side, fill_price, id_for, record_failure,
  record_for, reversal_request, reverse,
}
use atlas_ai_trading.Broker.{is_order_rejection, place}
use atlas_ai_trading.Decimal.{Decimal}
use atlas_ai_trading.Ledger.{close_position, ledger_actor, update_order_status}
use atlas_ai_trading.Prelude.{Bool-cases, false, inl, inr, none, ℕ}
use atlas_ai_trading.Prelude.Text.{Text, text}
use atlas_ai_trading.World.{
  Action, Error, Never, OrderAck, Result, bind-Never, log, ok, order_rejection, position_named,
  raise, raise-Never, raised, risk_rejection, strategy_named, unprotected_position, ◌>>=◌, ◌>>◌,
}

module _ (hexdigest : Text → Text) where
  after_reversal-Never :
      (b : Bracket) (quantity entry_price : Decimal) (i : ℕ) (r : Result OrderAck)
      → Never (after_reversal hexdigest b quantity entry_price i r)
  after_reversal-Never b quantity entry_price i (ok ack) =
      let c = (reversal_request hexdigest b quantity).client_order_id in
      let stop_it : Action BracketResult = raise (order_rejection false none) in
      let note = log risk_rejection (position_named i) ledger_actor in
      let exit = fill_price ack entry_price in
      bind-Never (update_order_status c ack.status)
        (λ _. close_position i exit >>= λ _. note >>= λ _. stop_it)
        λ _.
          bind-Never (close_position i exit) (λ _. note >>= λ _. stop_it)
            λ _. bind-Never note (λ _. stop_it) λ _. raise-Never (order_rejection false none)
  after_reversal-Never b quantity entry_price i (raised e) =
      elim (Bool-cases (is_order_rejection e)) [
        | inl y ↦
            let c = (reversal_request hexdigest b quantity).client_order_id in
            let note = log risk_rejection (strategy_named b.strategy_id) ledger_actor in
            rw y (
              bind-Never (record_failure c e >> note) (λ _. raise unprotected_position)
                (λ _. raise-Never unprotected_position))
        | inr n ↦ rw n (raise-Never e)
      ]

  pub reverse-Never :
      (b : Bracket) (quantity entry_price : Decimal) (i : ℕ) (e : Error)
      → Never (reverse hexdigest b quantity entry_price i e)
  unfolding reverse
  reverse-Never b quantity entry_price i e =
      let stop_id = id_for hexdigest b (exit_side b.side) (text "STOP") in
      let target_id = id_for hexdigest b (exit_side b.side) (text "TARGET") in
      let reversal = reversal_request hexdigest b quantity in
      let finish = after_reversal hexdigest b quantity entry_price i in
      let send = attempt (place reversal) >>= finish in
      let record_it = record_for b reversal i >> send in
      bind-Never (record_failure stop_id e) (λ _. record_failure target_id e >> record_it)
        λ _.
          bind-Never (record_failure target_id e) (λ _. record_it)
            λ _.
              bind-Never (record_for b reversal i) (λ _. send)
                λ _.
                  bind-Never (attempt (place reversal)) finish
                    (after_reversal-Never b quantity entry_price i)
