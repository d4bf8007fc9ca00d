-- ===== src/Brackets/Outcome.antt =====
-- The positions that `open_bracketed_position` leaves.
use mathlib.Core.Path.{subst}
use atlas_ai_trading.Brackets.{
  Bracket, BracketResult, Levels, enter, entry_request, is_refusal, levels_of,
  open_bracketed_position, opening_of, place_entry, protect, record_failure, record_submitted,
  require_fill,
}
use atlas_ai_trading.Brackets.Frame.{
  Keeping, Keeps, bind-Keeping, catch-Keeping, is_rejected, link-Quiet, place-Keeping,
  record_failure-Quiet, record_order-Quiet, update_order_status-Quiet,
}
use atlas_ai_trading.Brackets.Reversal.{bind-Closing, protect-Closing}
use atlas_ai_trading.Broker.{place}
use atlas_ai_trading.Decimal.{Decimal}
use atlas_ai_trading.Ledger.{
  Opening, closed_with, has_position_id, has_strategy_id, is_of_strategy, is_open,
  link_order_to_position, new_position, open_position, open_positions, submitted,
  update_order_status,
}
use atlas_ai_trading.Ledger.Positions.{open_position_lem, opened}
use atlas_ai_trading.Prelude.{
  Bool-cases, List, [], any, ap, arith, false, if◌then◌else◌, inl, inr, keep, leb, none, refl, sym,
  true, update_where, ℕ, ◌&&◌, ◌++◌, ◌+◌, ◌∙◌, ◌∷◌, ◌≡◌, ◌≤◌,
}
use atlas_ai_trading.Prelude.Text.{Text}
use atlas_ai_trading.World.{
  Action, Error, OrderAck, Position, Result, Result-cases, World, bind-ok, bind-raised,
  integrity_error, ok, pure, raise, raised, ◌>>=◌, ◌>>◌,
}

-- The identifiers of the positions were drawn before.
abbrev pub IsFresh : World → Type 0
IsFresh w = any (λ (p : Position). leb w.uuids p.id) w.positions ≡ false

-- Where the exception of a refused order is raised, the open positions are those that there were.
abbrev Leaves : {A : Type 0} → World → Result A × World → Type 0
Leaves w out = is_rejected out.0 ≡ true → open_positions none out.1 ≡ open_positions none w

abbrev Leaving : {A : Type 0} → Action A → Type 0
Leaving m = (w : World) → IsFresh w → Leaves w (m w)

fresh_later :
    (m n : ℕ) (ps : List Position)
    → m ≤ n
    → any (λ (p : Position). leb m p.id) ps ≡ false
    → any (λ (p : Position). leb n p.id) ps ≡ false
fresh_later m n [] h f = refl
fresh_later m n (p ∷ ps) h f = ground (arith, fresh_later m n ps h)

Keeps-IsFresh : (w v : World) → Keeps w v → IsFresh w → IsFresh v
Keeps-IsFresh w v k f =
    subst (λ ps. any (λ (p : Position). leb v.uuids p.id) ps ≡ false) (sym k.0)
      (fresh_later w.uuids v.uuids w.positions k.1 f)

open_same :
    (w v : World) → v.positions ≡ w.positions → open_positions none v ≡ open_positions none w
unfolding open_positions
open_same w v e = ap (keep (λ p. is_open p && is_of_strategy none p)) e

bind-Leaving :
    {A B : Type 0} (m : Action A) (k : A → Action B)
    → Keeping m
    → ((a : A) → Leaving (k a))
    → Leaving (m >>= k)
bind-Leaving m k f g w fresh = elim (Result-cases (m w)) [
  | inl (a, v, e) ↦
      let kept = subst (λ r. Keeps w r.1) e (f w) in
      subst (Leaves w) (sym (bind-ok m k a w v e))
        (λ h. g a v (Keeps-IsFresh w v kept fresh) h ∙ open_same w v kept.0)
  | inr (r, v, e) ↦
      let kept = subst (λ p. Keeps w p.1) e (f w) in
      subst (Leaves w) (sym (bind-raised m k r w v e)) (λ h. open_same w v kept.0)
]

-- A position that was opened and closed again is not among the open ones.
open_without :
    (i now : ℕ) (exit pnl : Decimal) (p : Position) (ps : List Position)
    → any (λ (q : Position). leb i q.id) ps ≡ false
    → p.id ≡ i
    → keep
        (λ q. is_open q && is_of_strategy none q)
        (update_where (has_position_id i) (closed_with now exit pnl) (ps ++ p ∷ []))
      ≡ keep (λ q. is_open q && is_of_strategy none q) ps
open_without i now exit pnl p [] f e = ground arith
open_without i now exit pnl p (q ∷ ps) f e = ground (arith, open_without i now exit pnl p ps)

-- The open positions after a position was opened and closed.
closed_again :
    (w : World) (a : Opening) (v : World)
    → IsFresh w
    → (now : ℕ) × (exit : Decimal) × (pnl : Decimal) × (v.positions
        ≡ update_where (has_position_id w.uuids) (closed_with now exit pnl) (opened a w).positions)
    → open_positions none v ≡ open_positions none w
unfolding open_positions
closed_again w a v fresh (now, exit, pnl, e) =
    ap (keep (λ p. is_open p && is_of_strategy none p)) e
    ∙ open_without w.uuids now exit pnl (new_position a w.uuids w.clock) w.positions fresh refl

pub levels_of-Keeping : (b : Bracket) (ack : OrderAck) → Keeping (levels_of b ack)
unfolding levels_of
levels_of-Keeping b ack w = ground arith

require_fill-Keeping : (b : Bracket) (ack : OrderAck) → Keeping (require_fill b ack)
require_fill-Keeping b ack w = ground arith

refused-Keeping :
    (c : Text) (e : Error)
    → Keeping {A = OrderAck} (if is_refusal e then record_failure c e >> raise e else raise e)
refused-Keeping c e w = ground (arith, record_failure-Quiet c e w)

module _ (hexdigest : Text → Text) where
  place_entry-Keeping : (b : Bracket) → Keeping (place_entry hexdigest b)
  place_entry-Keeping b =
      let request = entry_request hexdigest b in
      catch-Keeping (place request)
        (λ e. if is_refusal e then record_failure request.client_order_id e >> raise e else raise e)
        (place-Keeping request) (λ e. refused-Keeping request.client_order_id e)

  pub enter-Keeping : (b : Bracket) → Keeping (enter hexdigest b)
  unfolding enter
  enter-Keeping b =
      let request = entry_request hexdigest b in
      let c = request.client_order_id in
      let check : OrderAck → Action OrderAck = λ ack. require_fill b ack >>= λ _. pure ack in
      let update : OrderAck → Action OrderAck =
        λ ack. update_order_status c ack.status >>= λ _. check ack in
      let send = place_entry hexdigest b >>= update in
      bind-Keeping (record_submitted b request) (λ _. send)
        (λ w. (record_order-Quiet request b.strategy_id b.exchange_env submitted w).0)
        λ _. bind-Keeping (place_entry hexdigest b) update (place_entry-Keeping b) λ ack.
          bind-Keeping (update_order_status c ack.status) (λ _. check ack)
            (λ w. (update_order_status-Quiet c ack.status w).0)
            λ _.
              bind-Keeping (require_fill b ack) (λ _. pure ack) (require_fill-Keeping b ack)
                (λ _ w. (refl, omega arith))

  abbrev open_and_protect : Bracket → OrderAck → Levels → Action BracketResult
  open_and_protect b ack l = open_position (opening_of b ack l) >>= λ i.
      link_order_to_position (entry_request hexdigest b).client_order_id i >>= λ _.
      protect hexdigest b ack l i

  open_and_protect-Leaving :
      (b : Bracket) (ack : OrderAck) (l : Levels) → Leaving (open_and_protect b ack l)
  open_and_protect-Leaving b ack l w fresh =
      let a = opening_of b ack l in
      let c = (entry_request hexdigest b).client_order_id in
      let finish : ℕ → Action BracketResult =
        λ i. link_order_to_position c i >>= λ _. protect hexdigest b ack l i in
      elim (Bool-cases (any (has_strategy_id b.strategy_id) w.strategies)) [
        | inl y ↦
            let opens : open_position a w ≡ (ok w.uuids, opened a w) =
              ground (arith, open_position_lem a w) in
            let closes =
              bind-Closing w.uuids (link_order_to_position c w.uuids)
                (λ _. protect hexdigest b ack l w.uuids) (link-Quiet c w.uuids)
                (λ _. protect-Closing hexdigest b ack l w.uuids) (opened a w) in
            subst (Leaves w) (sym (bind-ok (open_position a) finish w.uuids w (opened a w) opens))
              (λ h. closed_again w a (finish w.uuids (opened a w)).1 fresh (closes h))
        | inr n ↦
            let fails : open_position a w
                ≡ (raised integrity_error, record w { uuids = w.uuids + 1 }) =
              ground (arith, open_position_lem a w) in
            subst (Leaves w)
              (sym (
                bind-raised (open_position a) finish integrity_error w
                  (record w { uuids = w.uuids + 1 }) fails))
              (λ h. absurd (ground arith))
      ]

  -- A bracket that ends in the exception of a refused order, whether the entry was refused, filled
  -- nothing, or was reversed because its exits were refused, leaves no position open that was not open
  -- before, where all identifiers of positions were drawn before.
  pub bracket_leaves_nothing_open :
      (b : Bracket) (w : World)
      → IsFresh w
      → is_rejected (open_bracketed_position hexdigest b w).0 ≡ true
      → open_positions none (open_bracketed_position hexdigest b w).1 ≡ open_positions none w
  unfolding open_bracketed_position
  bracket_leaves_nothing_open b w =
      let protect_it : OrderAck → Action BracketResult =
        λ ack. levels_of b ack >>= open_and_protect b ack in
      bind-Leaving (enter hexdigest b) protect_it (enter-Keeping b)
        (λ ack.
          bind-Leaving (levels_of b ack) (open_and_protect b ack) (levels_of-Keeping b ack)
            (open_and_protect-Leaving b ack))
        w
