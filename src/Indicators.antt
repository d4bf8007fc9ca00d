-- ===== src/Indicators.antt =====
-- src/atlas/strategy/indicators.py: every indicator of the fixed library. A series stands beside the
-- bars, `none` where the history is too short.
pub mod Causality
pub mod Registry
pub mod Bars
use atlas_ai_trading.Decimal.{
  Decimal, abs, div, max_of, min_of, negate, nought, of_ℕ, one, sum, ◌≼◌, ◌⊕◌, ◌⊖◌, ◌⊗◌,
}
use atlas_ai_trading.Market.{Kline}
use atlas_ai_trading.Prelude.{
  Bool, List, Option, [], and_then, drop, if◌then◌else◌, leb, length, ltb, map, none, or_default,
  some, suc, take, zero, ℕ, ◌&&◌, ◌++◌, ◌+◌, ◌-◌, ◌∷◌,
}

abbrev pub Series : Type 0
Series = List (Option Decimal)

-- `series[index] if index < len(series) else None`
abbrev pub at : Series → ℕ → Option Decimal
at [] i = none
at (x ∷ s) zero = x
at (x ∷ s) (suc i) = at s i

-- `[None] * n`
abbrev pub nones : ℕ → Series
nones zero = []
nones (suc n) = none ∷ nones n

-- `[None] * len(values)`, if there are fewer than are needed; else the values from an index on.
abbrev pub warm_up : (needed len first : ℕ) → Series → Series
warm_up needed len first s = if ltb len needed then nones len else nones first ++ s

-- A quotient by a number that is not 0: the code checks `period >= 1` before it divides.
unfoldable pub over : Decimal → ℕ → Decimal
over a n = or_default (div a (of_ℕ n)) nought

abbrev pub value_at : List Decimal → ℕ → Decimal
value_at [] i = nought
value_at (v ∷ vs) zero = v
value_at (v ∷ vs) (suc i) = value_at vs i

-- `running -= values[i - period]`, from bar `period` on.
abbrev pub less_oldest : List Decimal → (period i : ℕ) → Decimal → Decimal
less_oldest values period i running =
    if leb period i then running ⊖ value_at values (i - period) else running

-- The rounds of `sma` from bar `i` on.
unfoldable pub sma_from : List Decimal → (period : ℕ) → Decimal → ℕ → List Decimal → Series
unfolding over
sma_from values period running i [] = []
sma_from values period running i (v ∷ vs) =
    let total = less_oldest values period i (running ⊕ v) in
    (if leb (period - 1) i then some (over total period) else none)
    ∷ sma_from values period total (i + 1) vs

unfoldable pub sma : List Decimal → ℕ → Series
unfolding sma_from
sma values period = sma_from values period nought 0 values

unfoldable pub ema_from : (multiplier previous : Decimal) → List Decimal → Series
ema_from multiplier previous [] = []
ema_from multiplier previous (v ∷ vs) =
    let next = (v ⊖ previous) ⊗ multiplier ⊕ previous in some next ∷ ema_from multiplier next vs

-- `Decimal(2) / (Decimal(period) + 1)`
abbrev pub multiplier_of : ℕ → Decimal
multiplier_of period = over (of_ℕ 2) (period + 1)

unfoldable pub ema : List Decimal → ℕ → Series
unfolding ema_from over
ema values period =
    let seed = over (sum (take period values)) period in
    warm_up period (length values) (period - 1)
      (some seed ∷ ema_from (multiplier_of period) seed (drop period values))

-- A change, as the gain and the loss that it is.
pub record Move : Type 0 where
  pub gain : Decimal
  pub loss : Decimal

unfoldable pub move : Decimal → Decimal → Move
move previous current =
    let change = current ⊖ previous in
    record { gain = max_of change nought; loss = max_of (negate change) nought }

unfoldable pub moves_after : Decimal → List Decimal → List Move
unfolding move
moves_after v [] = []
moves_after v (u ∷ us) = move v u ∷ moves_after u us

-- The changes from each value to the next.
unfoldable pub moves : List Decimal → List Move
unfolding moves_after
moves [] = []
moves (v ∷ vs) = moves_after v vs

-- `avg_loss == 0`
abbrev pub is_zero : Decimal → Bool
is_zero a = (a ≼ nought) && (nought ≼ a)

-- `Decimal(100) if avg_loss == 0 else _rsi_from(avg_gain, avg_loss)`
unfoldable pub rsi_from : (avg_gain avg_loss : Decimal) → Decimal
rsi_from avg_gain avg_loss =
    if is_zero avg_loss
    then of_ℕ 100
    else of_ℕ 100
      ⊖ or_default (and_then (div avg_gain avg_loss) (λ rs. div (of_ℕ 100) (one ⊕ rs))) nought

abbrev pub smoothed : (period : ℕ) → (average next : Decimal) → Decimal
smoothed period average next = over (average ⊗ of_ℕ (period - 1) ⊕ next) period

unfoldable pub rsi_rest : (period : ℕ) → (avg_gain avg_loss : Decimal) → List Move → Series
unfolding over rsi_from
rsi_rest period avg_gain avg_loss [] = []
rsi_rest period avg_gain avg_loss (m ∷ ms) =
    let gain = smoothed period avg_gain m.gain in
    let loss = smoothed period avg_loss m.loss in
    some (rsi_from gain loss) ∷ rsi_rest period gain loss ms

unfoldable pub rsi : List Decimal → ℕ → Series
unfolding rsi_rest moves over rsi_from
rsi values period =
    let ms = moves values in
    let gain = over (sum (map (λ (m : Move). m.gain) (take period ms))) period in
    let loss = over (sum (map (λ (m : Move). m.loss) (take period ms))) period in
    warm_up (period + 1) (length values) period
      (some (rsi_from gain loss) ∷ rsi_rest period gain loss (drop period ms))

-- The true range of a bar after the close of the one before it.
unfoldable pub range_after : Decimal → Kline → Decimal
range_after previous_close k =
    max_of (max_of (k.high ⊖ k.low) (abs (k.high ⊖ previous_close))) (abs (k.low ⊖ previous_close))

unfoldable pub ranges_after : Decimal → List Kline → List Decimal
unfolding range_after
ranges_after previous_close [] = []
ranges_after previous_close (k ∷ ks) = range_after previous_close k ∷ ranges_after k.close ks

-- `true_range`, whose values are never `None`.
unfoldable pub ranges : List Kline → List Decimal
unfolding ranges_after
ranges [] = []
ranges (k ∷ ks) = (k.high ⊖ k.low) ∷ ranges_after k.close ks

unfoldable pub true_range : List Kline → Series
unfolding ranges
true_range ks = map some (ranges ks)

unfoldable pub atr_from : (period : ℕ) → Decimal → List Decimal → Series
unfolding over
atr_from period previous [] = []
atr_from period previous (r ∷ rs) =
    let next = smoothed period previous r in some next ∷ atr_from period next rs

unfoldable pub atr : List Kline → ℕ → Series
unfolding atr_from ranges over
atr ks period =
    let rs = ranges ks in
    let first = over (sum (take period rs)) period in
    warm_up period (length ks) (period - 1) (some first ∷ atr_from period first (drop period rs))

-- `max(...)` and `min(...)` of a slice that is not empty: the first of the greatest, and of the least.
unfoldable pub greatest : Decimal → List Decimal → Decimal
greatest best [] = best
greatest best (v ∷ vs) = greatest (max_of best v) vs

unfoldable pub least : Decimal → List Decimal → Decimal
least best [] = best
least best (v ∷ vs) = least (min_of best v) vs

abbrev pub extreme : (Decimal → List Decimal → Decimal) → List Decimal → Option Decimal
extreme pick [] = none
extreme pick (v ∷ vs) = some (pick v vs)

-- `bars[i - period + 1 : i + 1]`
abbrev pub window : List Decimal → (period i : ℕ) → List Decimal
window values period i = take period (drop (i + 1 - period) values)

-- The rounds of `rolling_high` and of `rolling_low`, which differ in what they pick.
unfoldable pub rolling_from :
    (Decimal → List Decimal → Decimal) → List Decimal → (period i : ℕ) → List Decimal → Series
rolling_from pick values period i [] = []
rolling_from pick values period i (v ∷ vs) =
    (if leb (period - 1) i then extreme pick (window values period i) else none)
    ∷ rolling_from pick values period (i + 1) vs

unfoldable pub rolling_high : List Kline → ℕ → Series
unfolding rolling_from greatest
rolling_high ks period =
    let highs = map (λ (k : Kline). k.high) ks in rolling_from greatest highs period 0 highs

unfoldable pub rolling_low : List Kline → ℕ → Series
unfolding rolling_from least
rolling_low ks period =
    let lows = map (λ (k : Kline). k.low) ks in rolling_from least lows period 0 lows

unfoldable pub volume_sma : List Kline → ℕ → Series
unfolding sma
volume_sma ks period = sma (map (λ (k : Kline). k.volume) ks) period
