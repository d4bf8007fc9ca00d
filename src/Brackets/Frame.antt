-- ===== src/Brackets/Frame.antt =====
-- What the steps of `open_bracketed_position` leave alone.
use mathlib.Core.Path.{subst}
use atlas_ai_trading.Brackets.{Bracket, attempt, record_failure, record_for, record_submitted}
use atlas_ai_trading.Broker.{OcoRequest, is_order_rejection, place, place_oco}
use atlas_ai_trading.Broker.Gate.{place-SameTables, place_oco-SameTables}
use atlas_ai_trading.Ledger.{
  OrderRequest, link_order_to_position, record_order, submitted, update_order_status,
}
use atlas_ai_trading.Ledger.Orders.{record_order_lem}
use atlas_ai_trading.Prelude.{Bool, arith, false, inl, inr, refl, sym, ℕ, ◌∙◌, ◌≡◌, ◌≤◌}
use atlas_ai_trading.Prelude.Text.{Text}
use atlas_ai_trading.World.{
  Action, Error, ExchangeEnv, Result, Result-cases, World, bind-ok, bind-raised, catch, catch-ok,
  catch-raised, ok, raised, ◌>>=◌,
}

-- The positions are the same, and identifiers were only used up.
abbrev pub Keeps : World → World → Type 0
Keeps w v = (v.positions ≡ w.positions) × (w.uuids ≤ v.uuids)

abbrev pub Keeping : {A : Type 0} → Action A → Type 0
Keeping m = (w : World) → Keeps w (m w).1

-- A result that is not the exception of a refused order.
abbrev pub is_rejected : {A : Type 0} → Result A → Bool
is_rejected (ok a) = false
is_rejected (raised e) = is_order_rejection e

-- An action that keeps the positions and raises no such exception.
abbrev pub Quiet : {A : Type 0} → Action A → Type 0
Quiet m = (w : World) → Keeps w (m w).1 × (is_rejected (m w).0 ≡ false)

pub Keeps-trans : (u v w : World) → Keeps u v → Keeps v w → Keeps u w
Keeps-trans u v w a b = (b.0 ∙ a.0, omega arith)

pub bind-Keeping :
    {A B : Type 0} (m : Action A) (k : A → Action B)
    → Keeping m
    → ((a : A) → Keeping (k a))
    → Keeping (m >>= k)
bind-Keeping m k f g w = elim (Result-cases (m w)) [
  | inl (a, v, e) ↦
      subst (λ r. Keeps w r.1) (sym (bind-ok m k a w v e))
        (Keeps-trans w v (k a v).1 (subst (λ r. Keeps w r.1) e (f w)) (g a v))
  | inr (r, v, e) ↦
      subst (λ r. Keeps w r.1) (sym (bind-raised m k r w v e)) (subst (λ p. Keeps w p.1) e (f w))
]

pub record_order-Quiet :
    (r : OrderRequest) (i : ℕ) (env : ExchangeEnv) (s : Text) → Quiet (record_order r i env s)
record_order-Quiet r i env s w = ground (arith, record_order_lem r i env s w)

pub link-Quiet : (c : Text) (i : ℕ) → Quiet (link_order_to_position c i)
unfolding link_order_to_position
link-Quiet c i w = ((refl, omega arith), refl)

pub update_order_status-Quiet : (c s : Text) → Quiet (update_order_status c s)
unfolding update_order_status
update_order_status-Quiet c s w = ((refl, omega arith), refl)

pub record_failure-Quiet : (c : Text) (e : Error) → Quiet (record_failure c e)
unfolding record_failure update_order_status
record_failure-Quiet c e w = ground arith

pub place-Keeping : (r : OrderRequest) → Keeping (place r)
place-Keeping r w = let same = place-SameTables r w in (same.2, omega (arith, same))

pub place_oco-Keeping : (q : OcoRequest) → Keeping (place_oco q)
place_oco-Keeping q w = let same = place_oco-SameTables q w in (same.2, omega arith)

pub bind-Quiet :
    {A B : Type 0} (m : Action A) (k : A → Action B)
    → Quiet m
    → ((a : A) → Quiet (k a))
    → Quiet (m >>= k)
bind-Quiet m k f g w = elim (Result-cases (m w)) [
  | inl (a, v, e) ↦
      let first = subst (λ r. Keeps w r.1) e (f w).0 in
      let rest = g a v in
      subst (λ r. Keeps w r.1 × (is_rejected r.0 ≡ false)) (sym (bind-ok m k a w v e))
        (Keeps-trans w v (k a v).1 first rest.0, rest.1)
  | inr (r, v, e) ↦
      let first = subst (λ p. Keeps w p.1) e (f w).0 in
      let quiet = subst (λ p. is_rejected p.0 ≡ false) e (f w).1 in
      subst (λ p. Keeps w p.1 × (is_rejected p.0 ≡ false)) (sym (bind-raised m k r w v e))
        (first, quiet)
]

pub attempt-Quiet : {A : Type 0} (m : Action A) → Keeping m → Quiet (attempt m)
attempt-Quiet m f w = (f w, refl)

-- A raised exception is handled by an action that keeps the positions.
pub catch-Keeping :
    {A : Type 0} (m : Action A) (handler : Error → Action A)
    → Keeping m
    → ((e : Error) → Keeping (handler e))
    → Keeping (catch m handler)
catch-Keeping m handler f g w = elim (Result-cases (m w)) [
  | inl (a, v, e) ↦
      subst (λ p. Keeps w p.1) (sym (catch-ok m handler a w v e)) (subst (λ p. Keeps w p.1) e (f w))
  | inr (r, v, e) ↦
      subst (λ p. Keeps w p.1) (sym (catch-raised m handler r w v e))
        (Keeps-trans w v (handler r v).1 (subst (λ p. Keeps w p.1) e (f w)) (g r v))
]

pub record_for-Quiet : (b : Bracket) (r : OrderRequest) (i : ℕ) → Quiet (record_for b r i)
record_for-Quiet b r i =
    bind-Quiet (record_submitted b r) (λ _. link_order_to_position r.client_order_id i)
      (record_order-Quiet r b.strategy_id b.exchange_env submitted)
      (λ _. link-Quiet r.client_order_id i)
