-- ===== src/Market/Validation.antt =====
-- src/atlas/data/validate.py: order, uniqueness and continuity of a series, and its staleness. A
-- reason is kept as data, not as the text that is made of it.
pub mod Continuity
use atlas_ai_trading.Filters.{missing}
use atlas_ai_trading.Market.{Kline, KlineSeries, Timeframe, milliseconds}
use atlas_ai_trading.Prelude.{
  Bool, List, [], false, if◌then◌else◌, ltb, true, ℕ, ◌*◌, ◌++◌, ◌+◌, ◌-◌, ◌/◌, ◌==◌, ◌∷◌,
}
use atlas_ai_trading.Prelude.Int.{sub_ℕ, ℤ}

pub data SeriesReason : Type 0 where
  series_is_empty : SeriesReason
  duplicate_bar : ℕ → SeriesReason
  out_of_order : ℕ → ℕ → SeriesReason
  gap_of : (missing : ℤ) → ℕ → ℕ → SeriesReason

pub record ValidationReport : Type 0 where
  pub valid : Bool
  pub reasons : List SeriesReason
  pub gap_count : ℕ
  pub duplicate_count : ℕ

-- What the loop over the pairs of neighbours carries.
pub record Findings : Type 0 where
  pub reasons : List SeriesReason
  pub gaps : ℕ
  pub duplicates : ℕ

abbrev reason_unless : Bool → SeriesReason → List SeriesReason
reason_unless true r = []
reason_unless false r = r ∷ []

-- One pair of neighbours.
unfoldable pub check_pair : (interval : ℕ) → (allow_gaps : Bool) → ℕ → ℕ → Findings → Findings
check_pair interval allow_gaps previous current f =
    if current == previous
    then record f {
      reasons = f.reasons ++ duplicate_bar current ∷ [];
      duplicates = f.duplicates + 1;
    }
    else if ltb current previous
    then record f { reasons = f.reasons ++ out_of_order current previous ∷ [] }
    else if current - previous == interval
    then f
    else record f {
      reasons =
          f.reasons
          ++ reason_unless allow_gaps
              (gap_of (sub_ℕ ((current - previous) / interval) 1) previous current);
      gaps = f.gaps + 1;
    }

-- `pairwise(bars)`, by their times of opening.
unfoldable pub check_pairs : (interval : ℕ) → (allow_gaps : Bool) → List Kline → Findings → Findings
unfolding check_pair
check_pairs interval allow_gaps [] f = f
check_pairs interval allow_gaps (k ∷ []) f = f
check_pairs interval allow_gaps (k ∷ l ∷ ks) f =
    check_pairs interval allow_gaps (l ∷ ks)
      (check_pair interval allow_gaps k.open_time l.open_time f)

abbrev has_none : List SeriesReason → Bool
has_none [] = true
has_none (r ∷ rs) = false

report_on_findings : Findings → ValidationReport
report_on_findings f = record {
  valid = has_none f.reasons;
  reasons = f.reasons;
  gap_count = f.gaps;
  duplicate_count = f.duplicates;
}

abbrev nothing_found : Findings
nothing_found = record { reasons = []; gaps = 0; duplicates = 0 }

validate_bars : (interval : ℕ) → (allow_gaps : Bool) → List Kline → ValidationReport
unfolding check_pairs report_on_findings
validate_bars interval allow_gaps [] = record {
  valid = false;
  reasons = series_is_empty ∷ [];
  gap_count = 0;
  duplicate_count = 0;
}
validate_bars interval allow_gaps (k ∷ ks) =
    report_on_findings (check_pairs interval allow_gaps (k ∷ ks) nothing_found)

unfoldable pub validate_series : KlineSeries → (allow_gaps : Bool) → ValidationReport
unfolding validate_bars
validate_series s allow_gaps = validate_bars (milliseconds s.timeframe) allow_gaps s.bars

-- `require_valid_series`, with the reasons of the exception.
pub data Required : Type 0 where
  usable : KlineSeries → Required
  unusable : List SeriesReason → Required

unfoldable pub require_valid_series : KlineSeries → (allow_gaps : Bool) → Required
unfolding validate_series
require_valid_series s allow_gaps =
    let report = validate_series s allow_gaps in
    if report.valid then usable s else unusable report.reasons

-- `check_staleness`: whether the age of the last bar is more than so many intervals, and the age; the
-- clock may be behind the bar.
unfoldable pub is_stale : (last_close : ℕ) → Timeframe → (now : ℕ) → (tolerance_multiple : ℕ) → Bool
is_stale last_close t now tolerance_multiple =
    ltb (last_close + milliseconds t * tolerance_multiple) now

unfoldable pub age_of : (last_close : ℕ) → (now : ℕ) → ℤ
age_of last_close now = sub_ℕ now last_close
