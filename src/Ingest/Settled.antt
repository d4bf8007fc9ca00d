-- ===== src/Ingest/Settled.antt =====
-- Which trades add nothing to the state, before and after an ingestion.
use mathlib.Core.Path.{subst}
use atlas_ai_trading.Ingest.{
  Delivery, Parsed, Tally, Trade, delivered, escapes, ingest_fill, ingest_named, ingest_parsed,
  ingest_trade, ingest_trades, no_mapping, parsed, to_fill, unparsed,
}
use atlas_ai_trading.Ingest.Accounting.{fault_of, goes_on, ingest_trades-ends, ingest_trades-step}
use atlas_ai_trading.Ingest.Closing.{close_if_exit_filled_lem}
use atlas_ai_trading.Ledger.{Fill, has_trade, new_fill, order_row, record_fill}
use atlas_ai_trading.Ledger.Fills.{record_fill_lem}
use atlas_ai_trading.Prelude.{
  Bool, List, Option, Option-cases, [], any, any-append, ap, arith, inl, inr, is_some, none, not,
  or_default, refl, some, sym, true, ℕ, ◌&&◌, ◌||◌, ◌∙◌, ◌∷◌, ◌≡◌,
}
use atlas_ai_trading.Prelude.Text.{Text}
use atlas_ai_trading.World.{Error, World}

-- A trade that adds nothing to a state: it has no client order id, it does not parse, its order is not
-- known, or its id is recorded.
abbrev pub is_settled_fill : Parsed → World → Bool
is_settled_fill unparsed w = true
is_settled_fill (escapes e) w = true
is_settled_fill (parsed f) w =
    not (is_some (order_row f.order_client_id w)) || any (has_trade f.exchange_trade_id) w.fills

abbrev pub is_settled_named : Text → Trade → World → Bool
is_settled_named [] x w = true
is_settled_named (a ∷ c) x w = is_settled_fill (to_fill x (a ∷ c)) w

abbrev pub is_settled : World → Delivery → Bool
is_settled w no_mapping = true
is_settled w (delivered x) = is_settled_named (or_default x.client_order_id []) x w

-- A state with the same orders and all the fills that there were, and maybe more.
abbrev pub Extends : World → World → Type 0
Extends w v =
    (v.orders ≡ w.orders)
    × ((n : ℕ) → any (has_trade n) w.fills ≡ true → any (has_trade n) v.fills ≡ true)

Extends-trans : (u v w : World) → Extends u v → Extends v w → Extends u w
Extends-trans u v w a b = (b.0 ∙ a.0, λ n h. b.1 n (a.1 n h))

nothing_ingested : (t : Tally) (w : World) → Extends w (ingest_trades [] t w).1
unfolding ingest_trades
nothing_ingested t w = (refl, λ n h. h)

record_fill-fills :
    (f : Fill) (w : World) (n : ℕ)
    → any (has_trade n) w.fills ≡ true
    → any (has_trade n) (record_fill f w).1.fills ≡ true
record_fill-fills f w n h = elim (Option-cases (order_row f.order_client_id w)) [
  | inl e ↦ ground (arith, record_fill_lem f w)
  | inr (o, e) ↦
      let row = new_fill f o.id w.uuids in
      ground (arith, record_fill_lem f w, any-append (has_trade n) w.fills (row ∷ []))
]

-- The orders and the fills after a trade are those that `record_fill` leaves.
ingest_fill-tables :
    (c : Text) (f : Fill) (t : Tally) (w : World)
    → ((ingest_fill c f t w).1.orders ≡ w.orders)
      × ((ingest_fill c f t w).1.fills ≡ (record_fill f w).1.fills)
unfolding ingest_fill
ingest_fill-tables c f t w =
    let next = (record_fill f w).1 in
    ground (arith, record_fill_lem f w, close_if_exit_filled_lem c f.price next)

ingest_fill-Extends :
    (c : Text) (f : Fill) (t : Tally) (w : World) → Extends w (ingest_fill c f t w).1
ingest_fill-Extends c f t w =
    let tables = ingest_fill-tables c f t w in
    (tables.0, λ n h. ap (any (has_trade n)) tables.1 ∙ record_fill-fills f w n h)

ingest_parsed-Extends :
    (c : Text) (x : Trade) (f : Parsed) (t : Tally) (w : World)
    → Extends w (ingest_parsed c x f t w).1
ingest_parsed-Extends c x unparsed t w = (refl, λ n h. h)
ingest_parsed-Extends c x (escapes e) t w = (refl, λ n h. h)
ingest_parsed-Extends c x (parsed f) t w = ingest_fill-Extends c f t w

ingest_named-Extends :
    (c : Text) (x : Trade) (t : Tally) (w : World) → Extends w (ingest_named c x t w).1
ingest_named-Extends [] x t w = (refl, λ n h. h)
ingest_named-Extends (a ∷ c) x t w = ingest_parsed-Extends (a ∷ c) x (to_fill x (a ∷ c)) t w

ingest_trade-Extends : (x : Delivery) (t : Tally) (w : World) → Extends w (ingest_trade x t w).1
unfolding ingest_trade
ingest_trade-Extends no_mapping t w = (refl, λ n h. h)
ingest_trade-Extends (delivered x) t w =
    ingest_named-Extends (or_default x.client_order_id []) x t w

-- What is settled stays settled.
settled_fill-Extends :
    (f : Parsed) (v w : World)
    → Extends v w
    → is_settled_fill f v ≡ true
    → is_settled_fill f w ≡ true
unfolding order_row
settled_fill-Extends unparsed v w e h = refl
settled_fill-Extends (escapes r) v w e h = refl
settled_fill-Extends (parsed f) v w e h = ground (arith, e.0, e.1 f.exchange_trade_id)

settled_named-Extends :
    (c : Text) (x : Trade) (v w : World)
    → Extends v w
    → is_settled_named c x v ≡ true
    → is_settled_named c x w ≡ true
settled_named-Extends [] x v w e h = refl
settled_named-Extends (a ∷ c) x v w e h = settled_fill-Extends (to_fill x (a ∷ c)) v w e h

-- A trade is settled once it is ingested.
recorded_by_fill : (f : Fill) (w : World) → is_settled_fill (parsed f) (record_fill f w).1 ≡ true
unfolding order_row
recorded_by_fill f w = elim (Option-cases (order_row f.order_client_id w)) [
  | inl e ↦ ground (arith, record_fill_lem f w)
  | inr (o, e) ↦
      let row = new_fill f o.id w.uuids in
      ground
        (arith, record_fill_lem f w, any-append (has_trade f.exchange_trade_id) w.fills (row ∷ []))
]

settled_by_fill :
    (c : Text) (f : Fill) (t : Tally) (w : World)
    → is_settled_fill (parsed f) (ingest_fill c f t w).1 ≡ true
unfolding order_row
settled_by_fill c f t w =
    ground (arith, record_fill_lem f w, ingest_fill-tables c f t w, recorded_by_fill f w)

settled_by_parsed :
    (c : Text) (x : Trade) (f : Parsed) (t : Tally) (w : World)
    → is_settled_fill f (ingest_parsed c x f t w).1 ≡ true
settled_by_parsed c x unparsed t w = refl
settled_by_parsed c x (escapes e) t w = refl
settled_by_parsed c x (parsed f) t w = settled_by_fill c f t w

settled_by_named :
    (c : Text) (x : Trade) (t : Tally) (w : World)
    → is_settled_named c x (ingest_named c x t w).1 ≡ true
settled_by_named [] x t w = refl
settled_by_named (a ∷ c) x t w = settled_by_parsed (a ∷ c) x (to_fill x (a ∷ c)) t w

settled_by_trade :
    (x : Delivery) (t : Tally) (w : World) → is_settled (ingest_trade x t w).1 x ≡ true
unfolding ingest_trade
settled_by_trade no_mapping t w = refl
settled_by_trade (delivered x) t w = settled_by_named (or_default x.client_order_id []) x t w

settled-Extends :
    (x : Delivery) (v w : World) → Extends v w → is_settled v x ≡ true → is_settled w x ≡ true
settled-Extends no_mapping v w e h = refl
settled-Extends (delivered x) v w e h =
    settled_named-Extends (or_default x.client_order_id []) x v w e h

ingest_trades-Extends :
    (xs : List Delivery) (t : Tally) (w : World) → Extends w (ingest_trades xs t w).1
ingest_trades-Extends [] t w = nothing_ingested t w
ingest_trades-Extends (x ∷ xs) t w = elim (Option-cases (fault_of x)) [
  | inl h ↦
      let (t', v, e) = goes_on x t w h in
      let first = subst (λ r. Extends w r.1) e (ingest_trade-Extends x t w) in
      subst (λ r. Extends w r.1) (sym (ingest_trades-step x xs t t' w v e))
        (Extends-trans w v (ingest_trades xs t' v).1 first (ingest_trades-Extends xs t' v))
  | inr (r, h) ↦ subst (λ r. Extends w r.1) (sym (ingest_trades-ends x xs t w r h)) (refl, λ n k. k)
]

-- The entries before the first fault are settled.
abbrev pub settled_before : World → Option Error → Delivery → Bool → Bool
settled_before w none x later = is_settled w x && later
settled_before w (some e) x later = true

abbrev pub all_settled_in : World → List Delivery → Bool
all_settled_in w [] = true
all_settled_in w (x ∷ xs) = settled_before w (fault_of x) x (all_settled_in w xs)

-- They are, once the list is ingested.
pub all_settled :
    (xs : List Delivery) (t : Tally) (w : World) → all_settled_in (ingest_trades xs t w).1 xs ≡ true
all_settled [] t w = refl
all_settled (x ∷ xs) t w = elim (Option-cases (fault_of x)) [
  | inl h ↦
      let (t', v, e) = goes_on x t w h in
      let last = (ingest_trades xs t' v).1 in
      let first = subst (λ r. is_settled r.1 x ≡ true) e (settled_by_trade x t w) in
      let still = settled-Extends x v last (ingest_trades-Extends xs t' v) first in
      let both : (is_settled last x && all_settled_in last xs) ≡ true =
        ground (arith, still, all_settled xs t' v) in
      subst (λ r. all_settled_in r.1 (x ∷ xs) ≡ true) (sym (ingest_trades-step x xs t t' w v e))
        (ap (λ f. settled_before last f x (all_settled_in last xs)) h ∙ both)
  | inr (r, h) ↦
      let last = (ingest_trades (x ∷ xs) t w).1 in
      ap (λ f. settled_before last f x (all_settled_in last xs)) h
]
