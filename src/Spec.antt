-- ===== src/Spec.antt =====
-- src/atlas/strategy/spec.py: a strategy is data. What the validators of the fields make of a text, the
-- name of an indicator or of a price, is kept here in its place; the rationale and JSON are left out.
pub mod References
use atlas_ai_trading.Decimal.{Decimal, nought, one, ◌≺◌}
use atlas_ai_trading.Indicators.Registry.{IndicatorName}
use atlas_ai_trading.Market.{Timeframe}
use atlas_ai_trading.Prelude.{
  Bool, List, Option, [], all, any, false, if◌then◌else◌, leb, length, none, not, some, true, ℕ,
  ◌&&◌, ◌==◌, ◌||◌, ◌∷◌,
}
use atlas_ai_trading.Prelude.Text.{Text, text, text_eq}
use atlas_ai_trading.World.{PositionSide, Result, long, ok, raised, short, value_error}

pub data PriceField : Type 0 where
  field_open field_high field_low field_close field_volume : PriceField

pub data Comparator : Type 0 where
  gt lt gte lte cross_above cross_below : Comparator

pub data StopKind : Type 0 where
  stop_atr_multiple stop_percent : StopKind

pub data TargetKind : Type 0 where
  target_risk_multiple target_atr_multiple target_percent : TargetKind

pub record IndicatorSpec : Type 0 where
  pub id : Text
  pub indicator_name : IndicatorName
  pub period : ℕ

pub data OperandKind : Type 0 where
  kind_indicator kind_price kind_constant : OperandKind

-- An operand before `_consistent`, and after it.
pub record RawOperand : Type 0 where
  pub kind : OperandKind
  pub ref : Option Text
  pub value : Option Decimal

pub data Operand : Type 0 where
  indicator : Text → Operand
  price : PriceField → Operand
  constant : Decimal → Operand

-- `PriceField(ref)`
unfoldable pub price_field_named : Text → Option PriceField
price_field_named s =
    if text_eq s (text "open")
    then some field_open
    else if text_eq s (text "high")
    then some field_high
    else if text_eq s (text "low")
    then some field_low
    else if text_eq s (text "close")
    then some field_close
    else if text_eq s (text "volume")
    then some field_volume
    else none

abbrev price_operand : Option PriceField → Result Operand
price_operand none = raised value_error
price_operand (some f) = ok (price f)

operand_of : OperandKind → Option Text → Option Decimal → Result Operand
unfolding price_field_named
operand_of kind_constant none (some v) = ok (constant v)
operand_of kind_constant (some r) (some v) = raised value_error
operand_of kind_constant r none = raised value_error
operand_of kind_indicator (some r) none = ok (indicator r)
operand_of kind_indicator (some r) (some v) = raised value_error
operand_of kind_indicator none v = raised value_error
operand_of kind_price (some r) none = price_operand (price_field_named r)
operand_of kind_price (some r) (some v) = raised value_error
operand_of kind_price none v = raised value_error

-- `Operand._consistent`
unfoldable pub consistent : RawOperand → Result Operand
unfolding operand_of
consistent o = operand_of o.kind o.ref o.value

pub record Condition : Type 0 where
  pub left : Operand
  pub op : Comparator
  pub right : Operand

pub record EntryRule : Type 0 where
  pub side : PositionSide
  pub conditions : List Condition

pub record StopRule : Type 0 where
  pub kind : StopKind
  pub value : Decimal
  pub indicator_ref : Option Text

pub record TargetRule : Type 0 where
  pub kind : TargetKind
  pub value : Decimal
  pub indicator_ref : Option Text

pub record StrategySpec : Type 0 where
  pub spec_name : Text
  pub symbol : Text
  pub timeframe : Timeframe
  pub indicators : List IndicatorSpec
  pub entries : List EntryRule
  pub stop_rule : StopRule
  pub target_rule : TargetRule
  pub max_bars_in_trade : ℕ

abbrev is_within : (lo hi n : ℕ) → Bool
is_within lo hi n = leb lo n && leb n hi

abbrev is_lower_letter : ℕ → Bool
is_lower_letter c = is_within b'a' b'z' c

abbrev is_word : ℕ → Bool
is_word c = is_lower_letter c || is_within b'0' b'9' c || c == b'_'

-- The pattern `^[a-z][a-z0-9_]*$` of an id.
abbrev is_identifier : Text → Bool
is_identifier [] = false
is_identifier (c ∷ cs) = is_lower_letter c && all is_word cs

unfoldable pub is_valid_indicator : IndicatorSpec → Bool
is_valid_indicator i =
    is_within 1 32 (length i.id) && is_identifier i.id && is_within 1 500 i.period

unfoldable pub is_valid_entry : EntryRule → Bool
is_valid_entry e = is_within 1 6 (length e.conditions)

-- `not self.indicator_ref`: missing or empty.
abbrev pub lacks_ref : Option Text → Bool
lacks_ref none = true
lacks_ref (some []) = true
lacks_ref (some (c ∷ cs)) = false

abbrev is_fraction : Decimal → Bool
is_fraction v = (nought ≺ v) && (v ≺ one)

unfoldable pub is_valid_stop : StopRule → Bool
is_valid_stop r = (nought ≺ r.value) && elim r.kind [
  | stop_atr_multiple ↦ not (lacks_ref r.indicator_ref)
  | stop_percent ↦ is_fraction r.value
]

unfoldable pub is_valid_target : TargetRule → Bool
is_valid_target r = (nought ≺ r.value) && elim r.kind [
  | target_atr_multiple ↦ not (lacks_ref r.indicator_ref)
  | target_percent ↦ is_fraction r.value
  | target_risk_multiple ↦ true
]

-- `known`
abbrev pub is_known : List IndicatorSpec → Text → Bool
is_known is r = any (λ (i : IndicatorSpec). text_eq i.id r) is

abbrev pub operand_is_known : List IndicatorSpec → Operand → Bool
operand_is_known is (indicator r) = is_known is r
operand_is_known is (price f) = true
operand_is_known is (constant v) = true

abbrev pub condition_is_known : List IndicatorSpec → Condition → Bool
condition_is_known is c = operand_is_known is c.left && operand_is_known is c.right

abbrev pub ref_is_known : List IndicatorSpec → Option Text → Bool
ref_is_known is none = true
ref_is_known is (some r) = is_known is r

-- `len(ids) == len(set(ids))`
abbrev has_distinct_ids : List IndicatorSpec → Bool
has_distinct_ids [] = true
has_distinct_ids (i ∷ is) = not (is_known is i.id) && has_distinct_ids is

abbrev pub same_side : PositionSide → PositionSide → Bool
same_side long long = true
same_side short short = true
same_side _ _ = false

-- `len(sides) == len(set(sides))`
abbrev has_distinct_sides : List EntryRule → Bool
has_distinct_sides [] = true
has_distinct_sides (e ∷ es) =
    not (any (λ (f : EntryRule). same_side f.side e.side) es) && has_distinct_sides es

-- `StrategySpec._validate_references`
unfoldable pub references_are_valid : StrategySpec → Bool
references_are_valid s =
    has_distinct_ids s.indicators
    && all (λ (e : EntryRule). all (condition_is_known s.indicators) e.conditions) s.entries
    && has_distinct_sides s.entries
    && ref_is_known s.indicators s.stop_rule.indicator_ref
    && ref_is_known s.indicators s.target_rule.indicator_ref

-- What the constructor of a spec accepts.
unfoldable pub is_valid_spec : StrategySpec → Bool
unfolding references_are_valid is_valid_indicator is_valid_entry is_valid_stop is_valid_target
is_valid_spec s =
    is_within 1 120 (length s.spec_name)
    && is_within 1 20 (length s.symbol)
    && leb (length s.indicators) 6
    && all is_valid_indicator s.indicators
    && is_within 1 2 (length s.entries)
    && all is_valid_entry s.entries
    && is_valid_stop s.stop_rule
    && is_valid_target s.target_rule
    && is_within 1 5000 s.max_bars_in_trade
    && references_are_valid s
