-- ===== src/Market/Validation/Continuity.antt =====
-- Which series are valid.
use mathlib.Core.Bool.{and-true}
use atlas_ai_trading.Market.{Kline, KlineSeries, Timeframe, milliseconds}
use atlas_ai_trading.Market.Validation.{
  Findings, SeriesReason, check_pair, check_pairs, duplicate_bar, gap_of, has_none, nothing_found,
  out_of_order, report_on_findings, validate_bars, validate_series,
}
use atlas_ai_trading.Prelude.{
  Bool, List, [], arith, false, length, ltb, refl, sym, true, ℕ, ◌&&◌, ◌++◌, ◌+◌, ◌-◌, ◌/◌, ◌<◌,
  ◌==◌, ◌∷◌, ◌≡◌,
}
use atlas_ai_trading.Prelude.Int.{sub_ℕ}

-- A bar may follow another: one interval later, or, where gaps are allowed, at any later time.
abbrev pub follows : (interval : ℕ) → (allow_gaps : Bool) → ℕ → ℕ → Bool
follows interval true previous current = ltb previous current
follows interval false previous current = current == previous + interval

-- Every bar follows the one before it.
unfoldable pub all_follow : (interval : ℕ) → (allow_gaps : Bool) → List Kline → Bool
all_follow interval allow_gaps [] = true
all_follow interval allow_gaps (k ∷ []) = true
all_follow interval allow_gaps (k ∷ l ∷ ks) =
    follows interval allow_gaps k.open_time l.open_time && all_follow interval allow_gaps (l ∷ ks)

has_none-append : (rs : List SeriesReason) (r : SeriesReason) → has_none (rs ++ r ∷ []) ≡ false
has_none-append [] r = refl
has_none-append (q ∷ rs) r = refl

check_pair_lem :
    (interval : ℕ) (allow_gaps : Bool) (p c : ℕ) (f : Findings)
    → 0 < interval
    → has_none (check_pair interval allow_gaps p c f).reasons
      ≡ (has_none f.reasons && follows interval allow_gaps p c)
unfolding check_pair
check_pair_lem interval true p c f h = ground (
  arith,
  has_none-append f.reasons (duplicate_bar c),
  has_none-append f.reasons (out_of_order c p),
)
check_pair_lem interval false p c f h = ground (
  arith,
  has_none-append f.reasons (duplicate_bar c),
  has_none-append f.reasons (out_of_order c p),
  has_none-append f.reasons (gap_of (sub_ℕ ((c - p) / interval) 1) p c),
)

check_pairs_lem :
    (interval : ℕ) (allow_gaps : Bool) (ks : List Kline) (f : Findings)
    → 0 < interval
    → has_none (check_pairs interval allow_gaps ks f).reasons
      ≡ (has_none f.reasons && all_follow interval allow_gaps ks)
unfolding check_pairs all_follow
check_pairs_lem interval allow_gaps [] f h = sym (and-true (has_none f.reasons))
check_pairs_lem interval allow_gaps (k ∷ []) f h = sym (and-true (has_none f.reasons))
check_pairs_lem interval allow_gaps (k ∷ l ∷ ks) f h = ground (
  arith,
  check_pair_lem interval allow_gaps k.open_time l.open_time f,
  check_pairs_lem interval allow_gaps (l ∷ ks)
      (check_pair interval allow_gaps k.open_time l.open_time f),
)

milliseconds_pos : (t : Timeframe) → 0 < milliseconds t
unfolding milliseconds
milliseconds_pos t = ground arith

validate_bars_lem :
    (interval : ℕ) (allow_gaps : Bool) (ks : List Kline)
    → 0 < interval
    → (validate_bars interval allow_gaps ks).valid
      ≡ (ltb 0 (length ks) && all_follow interval allow_gaps ks)
unfolding validate_bars report_on_findings
validate_bars_lem interval allow_gaps [] h = refl
validate_bars_lem interval allow_gaps (k ∷ ks) h =
    ground (arith, check_pairs_lem interval allow_gaps (k ∷ ks) nothing_found)

-- A series is valid exactly where it has a bar and every bar opens one interval after the one before
-- it, or, where gaps are allowed, later than it.
pub validate_series_lem :
    (s : KlineSeries) (allow_gaps : Bool)
    → (validate_series s allow_gaps).valid
      ≡ (ltb 0 (length s.bars) && all_follow (milliseconds s.timeframe) allow_gaps s.bars)
unfolding validate_series
validate_series_lem s allow_gaps =
    validate_bars_lem (milliseconds s.timeframe) allow_gaps s.bars (milliseconds_pos s.timeframe)
