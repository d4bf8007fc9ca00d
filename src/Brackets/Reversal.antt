-- ===== src/Brackets/Reversal.antt =====
-- Positions in the part of `open_bracketed_position` that comes after refused exits.
use mathlib.Core.Path.{subst}
use atlas_ai_trading.Brackets.{
  Bracket, BracketResult, Levels, after_exits, after_reversal, attempt, exit_side, fill_price,
  id_for, oco_request, protect, record_failure, record_for, reversal_request, reverse, stop_request,
  target_request,
}
use atlas_ai_trading.Brackets.Frame.{
  Keeps, Quiet, attempt-Quiet, bind-Quiet, is_rejected, place-Keeping, place_oco-Keeping,
  record_failure-Quiet, record_for-Quiet, update_order_status-Quiet,
}
use atlas_ai_trading.Broker.{OcoAck, is_order_rejection, place, place_oco}
use atlas_ai_trading.Decimal.{Decimal}
use atlas_ai_trading.Ledger.{
  close_position, closed_with, has_position_id, is_open, ledger_actor, pnl_of, position,
  update_order_status,
}
use atlas_ai_trading.Ledger.Positions.{close_position_lem}
use atlas_ai_trading.Prelude.{
  Bool-cases, List, Option-cases, arith, false, if◌then◌else◌, inl, inr, none, refl, sym, true,
  update_where, ℕ, ◌≡◌,
}
use atlas_ai_trading.Prelude.Text.{Text, text}
use atlas_ai_trading.World.{
  Action, Error, OrderAck, Position, Result, Result-cases, World, bind-ok, bind-raised, log, ok,
  order_rejection, position_named, raise, raised, risk_rejection, strategy_named,
  unprotected_position, ◌>>=◌, ◌>>◌,
}

-- Where the exception of a refused order is raised, a position was closed.
abbrev pub Closes : {A : Type 0} → ℕ → List Position → Result A × World → Type 0
Closes i ps out =
    is_rejected out.0 ≡ true
    → (now : ℕ) × (exit : Decimal) × (pnl : Decimal) × (out.1.positions
        ≡ update_where (has_position_id i) (closed_with now exit pnl) ps)

abbrev pub Closing : {A : Type 0} → ℕ → Action A → Type 0
Closing i m = (w : World) → Closes i w.positions (m w)

pub bind-Closing :
    {A B : Type 0} (i : ℕ) (m : Action A) (k : A → Action B)
    → Quiet m
    → ((a : A) → Closing i (k a))
    → Closing i (m >>= k)
bind-Closing i m k q f w = elim (Result-cases (m w)) [
  | inl (a, v, e) ↦
      let same = subst (λ r. Keeps w r.1) e (q w).0 in
      subst (Closes i w.positions) (sym (bind-ok m k a w v e))
        (subst (λ ps. Closes i ps (k a v)) same.0 (f a v))
  | inr (r, v, e) ↦
      let quiet = subst (λ p. is_rejected p.0 ≡ false) e (q w).1 in
      subst (Closes i w.positions) (sym (bind-raised m k r w v e)) (λ h. absurd (ground arith))
]

close-Closing :
    (i : ℕ) (exit : Decimal)
    → Closing {A = BracketResult} i (
        close_position i exit >>= λ _. log risk_rejection (position_named i) ledger_actor >>= λ _.
        raise (order_rejection false none))
close-Closing i exit w h = elim (Option-cases (position i w)) [
  | inl n ↦ absurd (ground (arith, close_position_lem i exit w))
  | inr (p, e) ↦ elim (Bool-cases (is_open p)) [
    | inl o ↦ (w.clock, exit, pnl_of p exit, ground (arith, close_position_lem i exit w))
    | inr o ↦ absurd (ground (arith, close_position_lem i exit w))
  ]
]

-- A result that raises no such exception closes nothing that matters here.
Quiet-Closing : {A : Type 0} (i : ℕ) (m : Action A) → Quiet m → Closing i m
Quiet-Closing i m q w h = absurd (ground (arith, q w))

after_failed_reversal-Closing :
    (b : Bracket) (c : Text) (i : ℕ) (e : Error)
    → Closing {A = BracketResult} i (
        if is_order_rejection e
        then record_failure c e
          >> log risk_rejection (strategy_named b.strategy_id) ledger_actor
          >> raise unprotected_position
        else raise e)
after_failed_reversal-Closing b c i e = elim (Bool-cases (is_order_rejection e)) [
  | inl y ↦
      let note = log risk_rejection (strategy_named b.strategy_id) ledger_actor in
      let quiet =
        bind-Quiet (record_failure c e) (λ _. note) (record_failure-Quiet c e)
          (λ _ w. ((refl, omega arith), refl)) in
      rw y (
        bind-Closing i (record_failure c e >> note) (λ _. raise unprotected_position) quiet
          (λ _ w h. absurd (ground arith)))
  | inr n ↦ rw n (λ w h. absurd (ground arith))
]

module _ (hexdigest : Text → Text) where
  after_reversal-Closing :
      (b : Bracket) (quantity entry_price : Decimal) (i : ℕ) (r : Result OrderAck)
      → Closing i (after_reversal hexdigest b quantity entry_price i r)
  after_reversal-Closing b quantity entry_price i (ok ack) =
      bind-Closing i
        (update_order_status (reversal_request hexdigest b quantity).client_order_id ack.status)
        (λ _. close_position i (fill_price ack entry_price) >>= λ _.
          log risk_rejection (position_named i) ledger_actor >>= λ _.
          raise (order_rejection false none))
        (update_order_status-Quiet (reversal_request hexdigest b quantity).client_order_id
          ack.status)
        (λ _. close-Closing i (fill_price ack entry_price))
  after_reversal-Closing b quantity entry_price i (raised e) =
      after_failed_reversal-Closing b (reversal_request hexdigest b quantity).client_order_id i e

  reverse-Closing :
      (b : Bracket) (quantity entry_price : Decimal) (i : ℕ) (e : Error)
      → Closing i (reverse hexdigest b quantity entry_price i e)
  unfolding reverse
  reverse-Closing b quantity entry_price i e =
      let stop_id = id_for hexdigest b (exit_side b.side) (text "STOP") in
      let target_id = id_for hexdigest b (exit_side b.side) (text "TARGET") in
      let reversal = reversal_request hexdigest b quantity in
      let finish = after_reversal hexdigest b quantity entry_price i in
      let send = attempt (place reversal) >>= finish in
      let record_it = record_for b reversal i >> send in
      bind-Closing i (record_failure stop_id e) (λ _. record_failure target_id e >> record_it)
        (record_failure-Quiet stop_id e)
        λ _.
          bind-Closing i (record_failure target_id e) (λ _. record_it)
            (record_failure-Quiet target_id e)
            λ _.
              bind-Closing i (record_for b reversal i) (λ _. send) (record_for-Quiet b reversal i)
                λ _.
                  bind-Closing i (attempt (place reversal)) finish
                    (attempt-Quiet (place reversal) (place-Keeping reversal))
                    (after_reversal-Closing b quantity entry_price i)

  after_exits-Closing :
      (b : Bracket) (ack : OrderAck) (l : Levels) (i : ℕ) (r : Result OcoAck)
      → Closing i (after_exits hexdigest b ack l i r)
  unfolding update_order_status
  after_exits-Closing b ack l i (ok exits) = λ w h. absurd (ground arith)
  after_exits-Closing b ack l i (raised e) = elim (Bool-cases (is_order_rejection e)) [
    | inl y ↦ rw y (reverse-Closing b ack.executed_qty l.entry_price i e)
    | inr n ↦ rw n (λ w h. absurd (ground arith))
  ]

  pub protect-Closing :
      (b : Bracket) (ack : OrderAck) (l : Levels) (i : ℕ) → Closing i (protect hexdigest b ack l i)
  unfolding protect
  protect-Closing b ack l i =
      let stop_order = stop_request hexdigest b ack.executed_qty l.stop_level in
      let target_order = target_request hexdigest b ack.executed_qty l.target_level in
      let oco = oco_request hexdigest b ack.executed_qty l.stop_level l.target_level in
      let finish = after_exits hexdigest b ack l i in
      let send = attempt (place_oco oco) >>= finish in
      bind-Closing i (record_for b stop_order i) (λ _. record_for b target_order i >> send)
        (record_for-Quiet b stop_order i)
        λ _.
          bind-Closing i (record_for b target_order i) (λ _. send)
            (record_for-Quiet b target_order i)
            λ _.
              bind-Closing i (attempt (place_oco oco)) finish
                (attempt-Quiet (place_oco oco) (place_oco-Keeping oco))
                (after_exits-Closing b ack l i)
