-- ===== src/Indicators/Bars.antt =====
-- The indicators over bars, and those of the registry, over a longer history.
use mathlib.Core.List.{map-append}
use atlas_ai_trading.Decimal.{Decimal, ◌⊖◌}
use atlas_ai_trading.Indicators.{
  at, atr, atr_from, greatest, least, range_after, ranges, ranges_after, rolling_from, rolling_high,
  rolling_low, smoothed, true_range, volume_sma, window,
}
use atlas_ai_trading.Indicators.Causality.{
  at-suc, ema-prefix, rsi-prefix, sma-prefix, warm_up-prefix,
}
use atlas_ai_trading.Indicators.Registry.{
  IndicatorName, closes, compute, name_atr, name_ema, name_rolling_high, name_rolling_low, name_rsi,
  name_sma, name_true_range, name_volume_sma,
}
use atlas_ai_trading.Market.{Kline}
use atlas_ai_trading.Prelude.{
  Bool-cases, List, [], ap, arith, drop, inl, inr, leb, length, length-append, map, refl, some, suc,
  zero, ℕ, ◌++◌, ◌+◌, ◌-◌, ◌<◌, ◌∷◌, ◌≡◌, ◌≤◌,
}
use atlas_ai_trading.Prelude.Slices.{drop-append, length-drop, length-map, take-append}

ranges_after-append :
    (c : Decimal) (ks more : List Kline)
    → (rest : List Decimal) × (ranges_after c (ks ++ more) ≡ ranges_after c ks ++ rest)
unfolding ranges_after
ranges_after-append c [] more = (ranges_after c more, refl)
ranges_after-append c (k ∷ ks) more =
    let (rest, e) = ranges_after-append k.close ks more in (rest, ap (λ rs. range_after c k ∷ rs) e)

ranges-append :
    (ks more : List Kline) → (rest : List Decimal) × (ranges (ks ++ more) ≡ ranges ks ++ rest)
unfolding ranges
ranges-append [] more = (ranges more, refl)
ranges-append (k ∷ ks) more =
    let (rest, e) = ranges_after-append k.close ks more in
    (rest, ap (λ rs. (k.high ⊖ k.low) ∷ rs) e)

length-ranges_after : (c : Decimal) (ks : List Kline) → length (ranges_after c ks) ≡ length ks
unfolding ranges_after
length-ranges_after c [] = refl
length-ranges_after c (k ∷ ks) = omega (arith, length-ranges_after k.close ks)

length-ranges : (ks : List Kline) → length (ranges ks) ≡ length ks
unfolding ranges
length-ranges [] = refl
length-ranges (k ∷ ks) = omega (arith, length-ranges_after k.close ks)

at-map-some :
    (vs us : List Decimal) (i : ℕ) → i < length vs → at (map some (vs ++ us)) i ≡ at (map some vs) i
at-map-some [] us i h = absurd (omega arith)
at-map-some (v ∷ vs) us zero h = refl
at-map-some (v ∷ vs) us (suc i) h = at-map-some vs us i (omega arith)

pub true_range-prefix :
    (ks more : List Kline) (i : ℕ)
    → i < length ks
    → at (true_range (ks ++ more)) i ≡ at (true_range ks) i
unfolding true_range
true_range-prefix ks more i h =
    let (rest, e) = ranges-append ks more in
    rw e (at-map-some (ranges ks) rest i (omega (arith, length-ranges ks)))

atr_from-prefix :
    (period : ℕ) (previous : Decimal) (vs us : List Decimal) (i : ℕ)
    → i < length vs
    → at (atr_from period previous (vs ++ us)) i ≡ at (atr_from period previous vs) i
unfolding atr_from
atr_from-prefix period previous [] us i h = absurd (omega arith)
atr_from-prefix period previous (v ∷ vs) us zero h = refl
atr_from-prefix period previous (v ∷ vs) us (suc i) h =
    atr_from-prefix period (smoothed period previous v) vs us i (omega arith)

pub atr-prefix :
    (ks more : List Kline) (period i : ℕ)
    → 1 ≤ period
    → i < length ks
    → at (atr (ks ++ more) period) i ≡ at (atr ks period) i
unfolding atr
atr-prefix ks more period i p h =
    let (rest, e) = ranges-append ks more in
    let size = length-ranges ks in
    rw e (
      warm_up-prefix period (period - 1) (length ks) (length (ks ++ more)) _ _ i
        (omega (arith, length-append ks more)) h (omega arith)
        λ j enough below.
          rw
            (
              take-append period (ranges ks) rest (omega (arith, size)),
              drop-append period (ranges ks) rest (omega (arith, size)),
            )
            (at-suc _ _ _ j λ i' q.
              atr_from-prefix period _ (drop period (ranges ks)) rest i'
                (omega (arith, size, length-drop period (ranges ks)))))

window-append :
    (vs us : List Decimal) (period i : ℕ)
    → period ≤ i + 1
    → i < length vs
    → window (vs ++ us) period i ≡ window vs period i
window-append vs us period i p h = rw (drop-append (i + 1 - period) vs us (omega arith)) (
    take-append period (drop (i + 1 - period) vs) us
      (omega (arith, length-drop (i + 1 - period) vs)))

rolling_from-prefix :
    (pick : Decimal → List Decimal → Decimal) (values us vs more : List Decimal) (period i j : ℕ)
    → i + length vs ≤ length values
    → j < length vs
    → at (rolling_from pick (values ++ us) period i (vs ++ more)) j
      ≡ at (rolling_from pick values period i vs) j
unfolding rolling_from
rolling_from-prefix pick values us [] more period i j h b = absurd (omega arith)
rolling_from-prefix pick values us (v ∷ vs) more period i zero h b =
    elim (Bool-cases (leb (period - 1) i)) [
      | inl y ↦ rw (y, window-append values us period i (ground arith) (omega arith)) refl
      | inr n ↦ rw n refl
    ]
rolling_from-prefix pick values us (v ∷ vs) more period i (suc j) h b =
    rolling_from-prefix pick values us vs more period (i + 1) j (omega arith) (omega arith)

rolling-prefix :
    (pick : Decimal → List Decimal → Decimal) (field : Kline → Decimal) (ks more : List Kline)
    (period i : ℕ)
    → i < length ks
    → at (rolling_from pick (map field (ks ++ more)) period 0 (map field (ks ++ more))) i
      ≡ at (rolling_from pick (map field ks) period 0 (map field ks)) i
rolling-prefix pick field ks more period i h = rw (map-append field ks more) (
    rolling_from-prefix pick (map field ks) (map field more) (map field ks) (map field more) period
      0 i (omega arith) (omega (arith, length-map field ks)))

-- No indicator of the registry reads a later bar: over a longer history its value at a bar is the same.
pub compute-prefix :
    (name : IndicatorName) (ks more : List Kline) (period i : ℕ)
    → 1 ≤ period
    → i < length ks
    → at (compute name (ks ++ more) period) i ≡ at (compute name ks period) i
unfolding compute closes
compute-prefix name_sma ks more period i p h = rw (map-append (λ (k : Kline). k.close) ks more) (
    sma-prefix (closes ks) (closes more) period i p
      (omega (arith, length-map (λ (k : Kline). k.close) ks)))
compute-prefix name_ema ks more period i p h = rw (map-append (λ (k : Kline). k.close) ks more) (
    ema-prefix (closes ks) (closes more) period i p
      (omega (arith, length-map (λ (k : Kline). k.close) ks)))
compute-prefix name_rsi ks more period i p h = rw (map-append (λ (k : Kline). k.close) ks more) (
    rsi-prefix (closes ks) (closes more) period i
      (omega (arith, length-map (λ (k : Kline). k.close) ks)))
compute-prefix name_atr ks more period i p h = atr-prefix ks more period i p h
compute-prefix name_rolling_high ks more period i p h =
    unfold rolling_high in rolling-prefix greatest (λ k. k.high) ks more period i h
compute-prefix name_rolling_low ks more period i p h =
    unfold rolling_low in rolling-prefix least (λ k. k.low) ks more period i h
compute-prefix name_volume_sma ks more period i p h =
    unfold volume_sma in
    rw (map-append (λ (k : Kline). k.volume) ks more) (
      sma-prefix (map (λ (k : Kline). k.volume) ks) (map (λ (k : Kline). k.volume) more) period i p
        (omega (arith, length-map (λ (k : Kline). k.volume) ks)))
compute-prefix name_true_range ks more period i p h = true_range-prefix ks more i h
