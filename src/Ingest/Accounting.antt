-- ===== src/Ingest/Accounting.antt =====
-- What the counts of `ingest` add up to.
use mathlib.Core.Option.{some-injective}
use atlas_ai_trading.Decimal.{Decimal}
use atlas_ai_trading.Ingest.{
  Delivery, Orphan, Parsed, Tally, Trade, TradeTime, add_orphan, at_time, beyond_platform,
  close_after, count_recorded, delivered, escapes, fee_of, ingest_fill, ingest_named, ingest_parsed,
  ingest_trade, ingest_trades, no_client_order_id, no_mapping, parsed, parsed_amounts, parsed_at,
  to_fill, unknown_order, unparseable_trade, unparsed, unreadable_time,
}
use atlas_ai_trading.Ingest.Closing.{close_if_exit_filled_lem}
use atlas_ai_trading.Ledger.{Fill, record_fill}
use atlas_ai_trading.Ledger.Fills.{record_fill_lem}
use atlas_ai_trading.Prelude.{
  Bool, List, Option, Option-cases, [], ap, arith, false, inl, inr, is_some, length, length-append,
  none, or_default, refl, some, sym, true, ℕ, ◌&&◌, ◌+◌, ◌∙◌, ◌∷◌, ◌≡◌,
}
use atlas_ai_trading.Prelude.Text.{Text}
use atlas_ai_trading.World.{
  Error, Result, Result-cases, World, attribute_error, bind-raised, ok, os_error, raised,
}

abbrev pub total : Tally → ℕ
total t = t.recorded + t.duplicates + length t.orphans

-- The total of a result.
abbrev pub total_of : Result Tally → Result ℕ
total_of (ok t) = ok (total t)
total_of (raised e) = raised e

-- What an entry makes the loop raise: one that is no object, and a trade with a client order id and
-- amounts whose time is beyond the platform.
abbrev has_amounts : Trade → Bool
has_amounts x = is_some x.qty && is_some x.price && is_some (fee_of x.commission)

abbrev is_beyond : TradeTime → Bool
is_beyond beyond_platform = true
is_beyond (at_time t) = false
is_beyond unreadable_time = false

abbrev fault_if : Bool → Option Error
fault_if true = some os_error
fault_if false = none

abbrev named_fault : Text → Trade → Option Error
named_fault [] x = none
named_fault (a ∷ c) x = fault_if (has_amounts x && is_beyond x.time)

abbrev pub fault_of : Delivery → Option Error
fault_of no_mapping = some attribute_error
fault_of (delivered x) = named_fault (or_default x.client_order_id []) x

abbrev pub first_of : {A : Type 0} → Option A → Option A → Option A
first_of none later = later
first_of (some a) later = some a

abbrev pub first_fault : List Delivery → Option Error
first_fault [] = none
first_fault (x ∷ xs) = first_of (fault_of x) (first_fault xs)

-- A count, unless there was a fault.
abbrev pub outcome : Option Error → ℕ → Result ℕ
outcome none n = ok n
outcome (some e) n = raised e

total-orphan : (o : Orphan) (t : Tally) → total (add_orphan o t) ≡ total t + 1
total-orphan o t = omega (arith, length-append t.orphans (o ∷ []))

close_after-total :
    (c : Text) (price : Decimal) (t : Tally) (w : World)
    → total_of (close_after c price t w).0 ≡ ok (total t)
close_after-total c price t w = ground (arith, close_if_exit_filled_lem c price w)

ingest_fill-total :
    (c : Text) (f : Fill) (t : Tally) (w : World)
    → total_of (ingest_fill c f t w).0 ≡ ok (total t + 1)
unfolding ingest_fill
ingest_fill-total c f t w =
    let next = (record_fill f w).1 in
    ground (
      arith,
      record_fill_lem f w,
      close_after-total c f.price (count_recorded t) next,
      total-orphan (unknown_order c) t,
    )

abbrev escape_of : Parsed → Option Error
escape_of (parsed f) = none
escape_of unparsed = none
escape_of (escapes e) = some e

parsed_at-escapes :
    (x : Trade) (c : Text) (q p f : Decimal) (at : TradeTime) (id : Option ℕ)
    → escape_of (parsed_at x c q p f at id) ≡ fault_if (is_beyond at)
parsed_at-escapes x c q p f beyond_platform id = refl
parsed_at-escapes x c q p f unreadable_time id = refl
parsed_at-escapes x c q p f (at_time t) none = refl
parsed_at-escapes x c q p f (at_time t) (some id) = refl

parsed_amounts-escapes :
    (x : Trade) (c : Text) (q p f : Option Decimal)
    → escape_of (parsed_amounts x c q p f)
      ≡ fault_if ((is_some q && is_some p && is_some f) && is_beyond x.time)
parsed_amounts-escapes x c none p f = refl
parsed_amounts-escapes x c (some q) none f = refl
parsed_amounts-escapes x c (some q) (some p) none = refl
parsed_amounts-escapes x c (some q) (some p) (some f) = parsed_at-escapes x c q p f x.time x.id

to_fill-escapes :
    (x : Trade) (c : Text) → escape_of (to_fill x c) ≡ fault_if (has_amounts x && is_beyond x.time)
unfolding to_fill
to_fill-escapes x c = parsed_amounts-escapes x c x.qty x.price (fee_of x.commission)

ingest_parsed-total :
    (c : Text) (x : Trade) (p : Parsed) (t : Tally) (w : World)
    → escape_of p ≡ none
    → total_of (ingest_parsed c x p t w).0 ≡ ok (total t + 1)
ingest_parsed-total c x unparsed t w h = ap ok (total-orphan (unparseable_trade x.id) t)
ingest_parsed-total c x (parsed f) t w h = ingest_fill-total c f t w
ingest_parsed-total c x (escapes e) t w h = absurd cc

ingest_named-total :
    (c : Text) (x : Trade) (t : Tally) (w : World)
    → named_fault c x ≡ none
    → total_of (ingest_named c x t w).0 ≡ ok (total t + 1)
ingest_named-total [] x t w h = ap ok (total-orphan (no_client_order_id x.id) t)
ingest_named-total (a ∷ c) x t w h =
    ingest_parsed-total (a ∷ c) x (to_fill x (a ∷ c)) t w (to_fill-escapes x (a ∷ c) ∙ h)

-- An entry without a fault is counted once.
pub ingest_trade-total :
    (x : Delivery) (t : Tally) (w : World)
    → fault_of x ≡ none
    → total_of (ingest_trade x t w).0 ≡ ok (total t + 1)
unfolding ingest_trade
ingest_trade-total no_mapping t w h = absurd cc
ingest_trade-total (delivered x) t w h =
    ingest_named-total (or_default x.client_order_id []) x t w h

ingest_parsed-raises :
    (c : Text) (x : Trade) (p : Parsed) (t : Tally) (w : World) (e : Error)
    → escape_of p ≡ some e
    → ingest_parsed c x p t w ≡ (raised e, w)
ingest_parsed-raises c x unparsed t w e h = absurd cc
ingest_parsed-raises c x (parsed f) t w e h = absurd cc
ingest_parsed-raises c x (escapes r) t w e h = ap (λ y. (raised y, w)) (some-injective r e h)

ingest_named-raises :
    (c : Text) (x : Trade) (t : Tally) (w : World) (e : Error)
    → named_fault c x ≡ some e
    → ingest_named c x t w ≡ (raised e, w)
ingest_named-raises [] x t w e h = absurd cc
ingest_named-raises (a ∷ c) x t w e h =
    ingest_parsed-raises (a ∷ c) x (to_fill x (a ∷ c)) t w e (to_fill-escapes x (a ∷ c) ∙ h)

-- A fault is raised, and changes nothing.
pub ingest_trade-raises :
    (x : Delivery) (t : Tally) (w : World) (e : Error)
    → fault_of x ≡ some e
    → ingest_trade x t w ≡ (raised e, w)
unfolding ingest_trade
ingest_trade-raises no_mapping t w e h =
    ap (λ y. (raised y, w)) (some-injective attribute_error e h)
ingest_trade-raises (delivered x) t w e h =
    ingest_named-raises (or_default x.client_order_id []) x t w e h

-- The loop goes on with what an entry leaves, or ends with its fault.
abbrev pub Continues : Delivery → Tally → World → Type 0
Continues x t w = (t' : Tally) × (v : World) × (ingest_trade x t w ≡ (ok t', v))

pub goes_on : (x : Delivery) (t : Tally) (w : World) → fault_of x ≡ none → Continues x t w
goes_on x t w h = elim (Result-cases (ingest_trade x t w)) [
  | inl s ↦ s
  | inr (r, v, e) ↦ absurd (ground (arith, ingest_trade-total x t w h))
]

pub ingest_trades-step :
    (x : Delivery) (xs : List Delivery) (t t' : Tally) (w v : World)
    → ingest_trade x t w ≡ (ok t', v)
    → ingest_trades (x ∷ xs) t w ≡ ingest_trades xs t' v
unfolding ingest_trades
ingest_trades-step x xs t t' w v e = ground arith

pub ingest_trades-ends :
    (x : Delivery) (xs : List Delivery) (t : Tally) (w : World) (r : Error)
    → fault_of x ≡ some r
    → ingest_trades (x ∷ xs) t w ≡ (raised r, w)
unfolding ingest_trades
ingest_trades-ends x xs t w r h =
    bind-raised (ingest_trade x t) (λ t'. ingest_trades xs t') r w w (ingest_trade-raises x t w r h)

-- Every entry that the exchange delivers is counted once, as recorded, as a duplicate or as an orphan,
-- unless some entry has a fault. Then the loop raises the fault of the first such entry: AttributeError
-- for one that is no object, OSError for a trade with a client order id and amounts whose time is beyond
-- the platform.
pub ingest_trades-total :
    (xs : List Delivery) (t : Tally) (w : World)
    → total_of (ingest_trades xs t w).0 ≡ outcome (first_fault xs) (total t + length xs)
unfolding ingest_trades
ingest_trades-total [] t w = ap ok (omega arith)
ingest_trades-total (x ∷ xs) t w = elim (Option-cases (fault_of x)) [
  | inl h ↦
      let (t', v, e) = goes_on x t w h in
      let counted : total t' ≡ total t + 1 = ground (arith, ingest_trade-total x t w h) in
      let sums : total t' + length xs ≡ total t + length (x ∷ xs) = omega (arith, counted) in
      ap (λ r. total_of r.0) (ingest_trades-step x xs t t' w v e)
      ∙ ingest_trades-total xs t' v
      ∙ ap (outcome (first_fault xs)) sums
      ∙ ap (λ f. outcome (first_of f (first_fault xs)) (total t + length (x ∷ xs))) (sym h)
  | inr (r, h) ↦
      ap (λ y. total_of y.0) (ingest_trades-ends x xs t w r h)
      ∙ ap (λ f. outcome (first_of f (first_fault xs)) (total t + length (x ∷ xs))) (sym h)
]
