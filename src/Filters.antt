-- ===== src/Filters.antt =====
-- src/atlas/risk/filters.py: the filters of a symbol are parsed from the exchange's answer and cached
-- for a time. The transport is a function from the symbol to what its request comes to.
pub mod Cache
use atlas_ai_trading.Decimal.{Decimal}
use atlas_ai_trading.Prelude.{
  Bool, List, Option, [], false, if◌then◌else◌, is_some, ltb, none, not, some, ℕ, ◌&&◌, ◌+◌, ◌∷◌,
}
use atlas_ai_trading.Prelude.Text.{Text, text, text_eq, upper}
use atlas_ai_trading.Sizing.{ExchangeFilters}
use atlas_ai_trading.World.{Result, arithmetic_error, exchange_info_error, key_error, ok, raised}

-- A value of a filter, on its way through `Decimal(str(value))`: the key may be missing.
pub data FilterValue : Type 0 where
  missing malformed : FilterValue
  number : Decimal → FilterValue

-- An entry of `payload["filters"]`.
pub record FilterEntry : Type 0 where
  pub filter_type : Option Text
  pub step_value : FilterValue
  pub min_qty_value : FilterValue
  pub min_notional_value : FilterValue
  pub notional_value : FilterValue
  pub tick_value : FilterValue

-- `Decimal(str(entry[key]))`
unfoldable pub required : FilterValue → Result Decimal
required missing = raised key_error
required malformed = raised arithmetic_error
required (number d) = ok d

-- `Decimal(str(entry.get("minNotional", entry.get("notional"))))`; `Decimal("None")` is refused.
unfoldable pub minimum_of : FilterValue → FilterValue → Result Decimal
minimum_of missing (number d) = ok d
minimum_of missing missing = raised arithmetic_error
minimum_of missing malformed = raised arithmetic_error
minimum_of malformed other = raised arithmetic_error
minimum_of (number d) other = ok d

is_of_type : Text → Option Text → Bool
is_of_type name none = false
is_of_type name (some t) = text_eq t name

-- `by_type.get(name)`: the last entry of a type is the one kept.
unfoldable pub by_type : Text → List FilterEntry → Option FilterEntry
unfolding is_of_type
by_type name [] = none
by_type name (f ∷ fs) = elim (by_type name fs) [
  | some g ↦ some g
  | none ↦ if is_of_type name f.filter_type then some f else none
]

abbrev or_else : Option FilterEntry → Option FilterEntry → Option FilterEntry
or_else none other = other
or_else (some f) other = some f

-- The decimals, read in the order of the code: the first that fails is what is raised.
unfoldable pub filters_of :
    Result Decimal → Result Decimal → Result Decimal → Result Decimal → Result ExchangeFilters
filters_of (raised e) q m t = raised e
filters_of (ok s) (raised e) m t = raised e
filters_of (ok s) (ok q) (raised e) t = raised e
filters_of (ok s) (ok q) (ok m) (raised e) = raised e
filters_of (ok s) (ok q) (ok m) (ok t) =
    ok (record { step_size = s; min_qty = q; min_notional = m; tick_size = t })

parse_entries :
    Option FilterEntry → Option FilterEntry → Option FilterEntry → Result ExchangeFilters
unfolding filters_of required minimum_of
parse_entries (some lot) (some price) (some notional) =
    filters_of (required lot.step_value) (required lot.min_qty_value)
      (minimum_of notional.min_notional_value notional.notional_value) (required price.tick_value)
parse_entries none price notional = raised exchange_info_error
parse_entries (some lot) none notional = raised exchange_info_error
parse_entries (some lot) (some price) none = raised exchange_info_error

unfoldable pub parse_symbol_filters : List FilterEntry → Result ExchangeFilters
unfolding parse_entries by_type
parse_symbol_filters entries =
    parse_entries (by_type (text "LOT_SIZE") entries) (by_type (text "PRICE_FILTER") entries)
      (or_else (by_type (text "NOTIONAL") entries) (by_type (text "MIN_NOTIONAL") entries))

-- What `get_json` gives: no dict, or the entries of `symbols`, each the list of its filters.
pub data InfoPayload : Type 0 where
  not_a_dict : InfoPayload
  symbols : List (List FilterEntry) → InfoPayload

unfoldable pub parse_info : InfoPayload → Result ExchangeFilters
unfolding parse_symbol_filters
parse_info not_a_dict = raised exchange_info_error
parse_info (symbols []) = raised exchange_info_error
parse_info (symbols (entries ∷ rest)) = parse_symbol_filters entries

-- `_cache`: for a symbol its filters and the time of their fetch.
pub record Cached : Type 0 where
  pub filters : ExchangeFilters
  pub fetched_at : ℕ

abbrev pub FilterCache : Type 0
FilterCache = List (Text × Cached)

unfoldable pub cache_get : Text → FilterCache → Option Cached
cache_get key [] = none
cache_get key ((k, c) ∷ cs) = if text_eq k key then some c else cache_get key cs

-- `self._cache[key] = value`
unfoldable pub cache_set : Text → Cached → FilterCache → FilterCache
cache_set key c [] = (key, c) ∷ []
cache_set key c ((k, d) ∷ cs) = if text_eq k key then (k, c) ∷ cs else (k, d) ∷ cache_set key c cs

-- What a call of `get` comes to, the cache it leaves, and how many requests it sent.
pub record Lookup : Type 0 where
  pub outcome : Result ExchangeFilters
  pub cache : FilterCache
  pub requests : ℕ

unfoldable pub parsed_answer : Result InfoPayload → Result ExchangeFilters
unfolding parse_info
parsed_answer (raised e) = raised e
parsed_answer (ok payload) = parse_info payload

unfoldable pub store : Text → ℕ → FilterCache → Result ExchangeFilters → Lookup
unfolding cache_set
store key now cache (raised e) = record { outcome = raised e; cache = cache; requests = 1 }
store key now cache (ok f) = record {
  outcome = ok f;
  cache = cache_set key (record { filters = f; fetched_at = now }) cache;
  requests = 1;
}

abbrev answered : FilterCache → Cached → Lookup
answered cache c = record { outcome = ok c.filters; cache = cache; requests = 0 }

-- `ExchangeFilterCache.get`
unfoldable pub get :
    (Text → Result InfoPayload)
    → (max_age now : ℕ) → (symbol : Text) → (force : Bool) → FilterCache
    → Lookup
unfolding cache_get store parsed_answer
get get_json max_age now symbol force cache =
    let key = upper symbol in
    let fetched = store key now cache (parsed_answer (get_json key)) in
    elim (cache_get key cache) [
      | none ↦ fetched
      | some c ↦ if not force && ltb now (c.fetched_at + max_age) then answered cache c else fetched
    ]

unfoldable pub is_cached : Text → FilterCache → Bool
unfolding cache_get
is_cached symbol cache = is_some (cache_get (upper symbol) cache)
