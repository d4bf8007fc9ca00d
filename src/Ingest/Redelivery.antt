-- ===== src/Ingest/Redelivery.antt =====
-- Trades that the exchange delivers again, to `ingest_trades` in the state in which they were delivered.
use mathlib.Core.Path.{subst}
use mathlib.Core.Option.{some-injective}
use atlas_ai_trading.Ingest.{
  Delivery, Parsed, Tally, Trade, delivered, escapes, ingest_fill, ingest_named, ingest_parsed,
  ingest_trade, ingest_trades, no_mapping, no_trades, parsed, to_fill, unparsed,
}
use atlas_ai_trading.Ingest.Accounting.{
  fault_of, first_fault, first_of, goes_on, ingest_trades-ends, ingest_trades-step,
}
use atlas_ai_trading.Ingest.Settled.{
  all_settled, all_settled_in, is_settled, is_settled_fill, is_settled_named, settled_before,
}
use atlas_ai_trading.Ledger.{Fill}
use atlas_ai_trading.Ledger.Fills.{record_fill_lem}
use atlas_ai_trading.Prelude.{
  List, Option, Option-cases, [], ap, arith, inl, inr, none, or_default, refl, some, sym, true, ℕ,
  ◌&&◌, ◌∙◌, ◌∷◌, ◌≡◌,
}
use atlas_ai_trading.Prelude.Text.{Text}
use atlas_ai_trading.World.{Error, Result, World, ok, raised}

-- What a settled trade does.
abbrev pub recorded_of : Result Tally → Option ℕ
recorded_of (ok t) = some t.recorded
recorded_of (raised e) = none

ingest_fill-settled :
    (c : Text) (f : Fill) (t : Tally) (w : World)
    → is_settled_fill (parsed f) w ≡ true
    → ((ingest_fill c f t w).1 ≡ w) × (recorded_of (ingest_fill c f t w).0 ≡ some t.recorded)
unfolding ingest_fill
ingest_fill-settled c f t w h = ground (arith, record_fill_lem f w)

nothing_settled :
    (t : Tally) (w : World)
    → ((ingest_trades [] t w).1 ≡ w) × (recorded_of (ingest_trades [] t w).0 ≡ some t.recorded)
unfolding ingest_trades
nothing_settled t w = (refl, refl)

-- What is recorded, unless there was a fault.
abbrev pub recorded_unless : Option Error → ℕ → Option ℕ
recorded_unless none n = some n
recorded_unless (some e) n = none

-- A settled entry changes no state, and records nothing where it does not raise.
abbrev Idles : Result Tally × World → Tally → World → Type 0
Idles r t w = (r.1 ≡ w) × ((y : Tally) → r.0 ≡ ok y → y.recorded ≡ t.recorded)

recorded_ok :
    (y : Tally) (r : Result Tally) (n : ℕ) → recorded_of r ≡ some n → r ≡ ok y → y.recorded ≡ n
recorded_ok y r n a b =
    let now : recorded_of (ok y) ≡ some n = subst (λ z. recorded_of z ≡ some n) b a in
    some-injective y.recorded n now

settled_parsed :
    (c : Text) (x : Trade) (f : Parsed) (t : Tally) (w : World)
    → is_settled_fill f w ≡ true
    → Idles (ingest_parsed c x f t w) t w
settled_parsed c x unparsed t w h = (refl, λ y e. recorded_ok y _ t.recorded refl e)
settled_parsed c x (escapes r) t w h = (refl, λ y e. absurd cc)
settled_parsed c x (parsed f) t w h =
    let (same, kept) = ingest_fill-settled c f t w h in
    (same, λ y e. recorded_ok y (ingest_fill c f t w).0 t.recorded kept e)

settled_named :
    (c : Text) (x : Trade) (t : Tally) (w : World)
    → is_settled_named c x w ≡ true
    → Idles (ingest_named c x t w) t w
settled_named [] x t w h = (refl, λ y e. recorded_ok y _ t.recorded refl e)
settled_named (a ∷ c) x t w h = settled_parsed (a ∷ c) x (to_fill x (a ∷ c)) t w h

ingest_trade-settled :
    (x : Delivery) (t : Tally) (w : World) → is_settled w x ≡ true → Idles (ingest_trade x t w) t w
unfolding ingest_trade
ingest_trade-settled no_mapping t w h = (refl, λ y e. absurd cc)
ingest_trade-settled (delivered x) t w h = settled_named (or_default x.client_order_id []) x t w h

-- What a list of settled entries does.
abbrev Repeats : List Delivery → Tally → World → Type 0
Repeats xs t w =
    let r = ingest_trades xs t w in
    (r.1 ≡ w) × (recorded_of r.0 ≡ recorded_unless (first_fault xs) t.recorded)

ingest_trades-settled :
    (xs : List Delivery) (t : Tally) (w : World) → all_settled_in w xs ≡ true → Repeats xs t w
ingest_trades-settled [] t w h = nothing_settled t w
ingest_trades-settled (x ∷ xs) t w h = elim (Option-cases (fault_of x)) [
  | inl n ↦
      let (t', v, e) = goes_on x t w n in
      let here : (is_settled w x && all_settled_in w xs) ≡ true =
        ap (λ f. settled_before w f x (all_settled_in w xs)) (sym n) ∙ h in
      let (same, kept) = ingest_trade-settled x t w (ground arith) in
      let stays : v ≡ w = sym (ap (λ r. r.1) e) ∙ same in
      let count : t'.recorded ≡ t.recorded = kept t' (ap (λ r. r.0) e) in
      let rest = ingest_trades-settled xs t' w (ground arith) in
      let step = ingest_trades-step x xs t t' w v e ∙ ap (ingest_trades xs t') stays in
      let skip : first_fault (x ∷ xs) ≡ first_fault xs = ap (λ f. first_of f (first_fault xs)) n in
      (
        ap (λ r. r.1) step ∙ rest.0,
        ap (λ r. recorded_of r.0) step
            ∙ rest.1
            ∙ ap (recorded_unless (first_fault xs)) count
            ∙ ap (λ f. recorded_unless f t.recorded) (sym skip),
      )
  | inr (r, n) ↦
      let step = ingest_trades-ends x xs t w r n in
      let first : first_fault (x ∷ xs) ≡ some r = ap (λ f. first_of f (first_fault xs)) n in
      (
        ap (λ r. r.1) step,
        ap (λ r. recorded_of r.0) step ∙ ap (λ f. recorded_unless f t.recorded) (sym first),
      )
]

-- Delivered again, in the state that ingesting them left, the same trades record nothing and change no
-- state: no fill counts twice, and no position is closed by a repetition. Where an entry made the loop
-- raise, the repetition raises too, and changes nothing.
pub ingest_again :
    (xs : List Delivery) (t : Tally) (w : World)
    → let w' = (ingest_trades xs t w).1 in
      ((ingest_trades xs no_trades w').1 ≡ w')
      × (recorded_of (ingest_trades xs no_trades w').0 ≡ recorded_unless (first_fault xs) 0)
ingest_again xs t w =
    ingest_trades-settled xs no_trades (ingest_trades xs t w).1 (all_settled xs t w)
