-- ===== src/Indicators/Causality.antt =====
-- The indicators over closes, over a longer history.
use atlas_ai_trading.Decimal.{Decimal, nought, ◌⊕◌, ◌⊖◌, ◌⊗◌}
use atlas_ai_trading.Indicators.{
  Move, Series, at, ema, ema_from, less_oldest, move, moves, moves_after, multiplier_of, nones, rsi,
  rsi_rest, sma, sma_from, smoothed, value_at, warm_up,
}
use atlas_ai_trading.Prelude.{
  Bool-cases, List, Option, [], ap, arith, drop, false, inl, inr, leb, length, length-append, ltb,
  none, refl, suc, sym, zero, ℕ, ◌++◌, ◌+◌, ◌-◌, ◌<◌, ◌∙◌, ◌∷◌, ◌≡◌, ◌≤◌,
}
use atlas_ai_trading.Prelude.Slices.{drop-append, length-drop, take-append}

pub at-append : (s t : Series) (i : ℕ) → i < length s → at (s ++ t) i ≡ at s i
at-append [] t i h = absurd (omega arith)
at-append (x ∷ s) t zero h = refl
at-append (x ∷ s) t (suc i) h = at-append s t i (omega arith)

at-nones : (n i : ℕ) → at (nones n) i ≡ none
at-nones zero i = refl
at-nones (suc n) zero = refl
at-nones (suc n) (suc i) = at-nones n i

at-nones_before : (n i : ℕ) (s : Series) → i < n → at (nones n ++ s) i ≡ none
at-nones_before zero i s h = absurd (omega arith)
at-nones_before (suc n) zero s h = refl
at-nones_before (suc n) (suc i) s h = at-nones_before n i s (omega arith)

at-nones_from : (n i : ℕ) (s : Series) → n ≤ i → at (nones n ++ s) i ≡ at s (i - n)
at-nones_from zero i s h = let e : i - 0 ≡ i = omega arith in rw e refl
at-nones_from (suc n) zero s h = absurd (omega arith)
at-nones_from (suc n) (suc i) s h =
    let e : suc i - suc n ≡ i - n = omega arith in rw e (at-nones_from n i s (omega arith))

-- The values of a longer history stand at the bars of the shorter one, where those do that are known.
pub warm_up-prefix :
    (needed first l m : ℕ) (s t : Series) (i : ℕ)
    → l ≤ m
    → i < l
    → needed ≤ first + 1
    → ((j : ℕ) → needed ≤ l → first + j < l → at t j ≡ at s j)
    → at (warm_up needed m first t) i ≡ at (warm_up needed l first s) i
warm_up-prefix needed first l m s t i le h n same = elim (Bool-cases (ltb l needed)) [
  | inl few ↦ elim (Bool-cases (ltb m needed)) [
    | inl also ↦ rw (few, also) (at-nones m i ∙ sym (at-nones l i))
    | inr enough ↦ rw (few, enough) (at-nones_before first i t (ground arith) ∙ sym (at-nones l i))
  ]
  | inr many ↦
      let also : ltb m needed ≡ false = ground arith in
      rw (many, also)
        (elim (Bool-cases (ltb i first)) [
          | inl warming ↦
              at-nones_before first i t (ground arith)
              ∙ sym (at-nones_before first i s (ground arith))
          | inr warm ↦
              at-nones_from first i t (ground arith)
              ∙ same (i - first) (ground arith) (ground arith)
              ∙ sym (at-nones_from first i s (ground arith))
        ])
]

value_at-append :
    (vs us : List Decimal) (i : ℕ) → i < length vs → value_at (vs ++ us) i ≡ value_at vs i
value_at-append [] us i h = absurd (omega arith)
value_at-append (v ∷ vs) us zero h = refl
value_at-append (v ∷ vs) us (suc i) h = value_at-append vs us i (omega arith)

less_oldest-append :
    (values us : List Decimal) (period i : ℕ) (running : Decimal)
    → 1 ≤ period
    → i < length values
    → less_oldest (values ++ us) period i running ≡ less_oldest values period i running
less_oldest-append values us period i running p h = elim (Bool-cases (leb period i)) [
  | inl y ↦ rw (y, value_at-append values us (i - period) (ground arith)) refl
  | inr n ↦ rw n refl
]

sma_from-prefix :
    (values us vs more : List Decimal) (period : ℕ) (running : Decimal) (i j : ℕ)
    → 1 ≤ period
    → i + length vs ≤ length values
    → j < length vs
    → at (sma_from (values ++ us) period running i (vs ++ more)) j
      ≡ at (sma_from values period running i vs) j
unfolding sma_from
sma_from-prefix values us [] more period running i j p h b = absurd (omega arith)
sma_from-prefix values us (v ∷ vs) more period running i zero p h b =
    rw (less_oldest-append values us period i (running ⊕ v) p (omega arith)) refl
sma_from-prefix values us (v ∷ vs) more period running i (suc j) p h b =
    rw (less_oldest-append values us period i (running ⊕ v) p (omega arith)) (
      sma_from-prefix values us vs more period (less_oldest values period i (running ⊕ v)) (i + 1) j
        p (omega arith) (omega arith))

pub sma-prefix :
    (vs us : List Decimal) (period i : ℕ)
    → 1 ≤ period
    → i < length vs
    → at (sma (vs ++ us) period) i ≡ at (sma vs period) i
unfolding sma
sma-prefix vs us period i p h = sma_from-prefix vs us vs us period nought 0 i p (omega arith) h

ema_from-prefix :
    (m previous : Decimal) (vs us : List Decimal) (i : ℕ)
    → i < length vs
    → at (ema_from m previous (vs ++ us)) i ≡ at (ema_from m previous vs) i
unfolding ema_from
ema_from-prefix m previous [] us i h = absurd (omega arith)
ema_from-prefix m previous (v ∷ vs) us zero h = refl
ema_from-prefix m previous (v ∷ vs) us (suc i) h =
    ema_from-prefix m ((v ⊖ previous) ⊗ m ⊕ previous) vs us i (omega arith)

-- A value at an index of the list that starts later.
pub at-suc :
    (x : Option Decimal) (s t : Series) (j : ℕ)
    → ((i : ℕ) → suc i ≡ j → at t i ≡ at s i)
    → at (x ∷ t) j ≡ at (x ∷ s) j
at-suc x s t zero h = refl
at-suc x s t (suc j) h = h j refl

pub ema-prefix :
    (vs us : List Decimal) (period i : ℕ)
    → 1 ≤ period
    → i < length vs
    → at (ema (vs ++ us) period) i ≡ at (ema vs period) i
unfolding ema
ema-prefix vs us period i p h =
    warm_up-prefix period (period - 1) (length vs) (length (vs ++ us)) _ _ i
      (omega (arith, length-append vs us)) h (omega arith)
      λ j enough below.
        rw (take-append period vs us enough, drop-append period vs us enough)
          (at-suc _ _ _ j λ i' e.
            ema_from-prefix (multiplier_of period) _ (drop period vs) us i'
              (omega (arith, length-drop period vs)))

moves_after-append :
    (v : Decimal) (vs us : List Decimal)
    → (rest : List Move) × (moves_after v (vs ++ us) ≡ moves_after v vs ++ rest)
unfolding moves_after
moves_after-append v [] us = (moves_after v us, refl)
moves_after-append v (u ∷ vs) us =
    let (rest, e) = moves_after-append u vs us in (rest, ap (λ ms. move v u ∷ ms) e)

length-moves_after : (v : Decimal) (vs : List Decimal) → length (moves_after v vs) ≡ length vs
unfolding moves_after
length-moves_after v [] = refl
length-moves_after v (u ∷ vs) = omega (arith, length-moves_after u vs)

rsi_rest-prefix :
    (period : ℕ) (gain loss : Decimal) (ms ns : List Move) (i : ℕ)
    → i < length ms
    → at (rsi_rest period gain loss (ms ++ ns)) i ≡ at (rsi_rest period gain loss ms) i
unfolding rsi_rest
rsi_rest-prefix period gain loss [] ns i h = absurd (omega arith)
rsi_rest-prefix period gain loss (m ∷ ms) ns zero h = refl
rsi_rest-prefix period gain loss (m ∷ ms) ns (suc i) h =
    rsi_rest-prefix period (smoothed period gain m.gain) (smoothed period loss m.loss) ms ns i
      (omega arith)

pub rsi-prefix :
    (vs us : List Decimal) (period i : ℕ)
    → i < length vs
    → at (rsi (vs ++ us) period) i ≡ at (rsi vs period) i
unfolding rsi moves
rsi-prefix [] us period i h = absurd (omega arith)
rsi-prefix (v ∷ vs) us period i h =
    let (rest, e) = moves_after-append v vs us in
    let size = length-moves_after v vs in
    rw e (
      warm_up-prefix (period + 1) period (suc (length vs)) (suc (length (vs ++ us))) _ _ i
        (omega (arith, length-append vs us)) h (omega arith)
        λ j enough below.
          rw
            (
              take-append period (moves_after v vs) rest (omega (arith, size)),
              drop-append period (moves_after v vs) rest (omega (arith, size)),
            )
            (at-suc _ _ _ j λ i' q.
              rsi_rest-prefix period _ _ (drop period (moves_after v vs)) rest i'
                (omega (arith, size, length-drop period (moves_after v vs)))))
