-- ===== src/Tests/Runtime.antt =====
-- The scheduler on a tick that begins to fail, the recovery of a restarted process, and the cache of
-- the exchange's filters.
use atlas_ai_trading.Decimal.{decimal, nought, of_ℕ, ◌≼◌}
use atlas_ai_trading.Filters.{
  FilterCache, FilterEntry, InfoPayload, Lookup, by_type, get, missing, number,
  parse_symbol_filters, parsed_answer, required, symbols,
}
use atlas_ai_trading.KillSwitch.{is_armed, is_valid_record, read_state}
use atlas_ai_trading.Prelude.{
  List, [], false, if◌then◌else◌, leb, none, not, refl, some, suc, true, ℕ, ◌&&◌, ◌∷◌, ◌≡◌,
}
use atlas_ai_trading.Prelude.Int.{pos}
use atlas_ai_trading.Prelude.Text.{Text, starts_with, text, text_eq, upper}
use atlas_ai_trading.Reconcile.{
  RemoteOrder, is_clean, local_open_orders, reconcile, remote_of, unrecorded,
}
use atlas_ai_trading.Reconcile.Arming.{the_report}
use atlas_ai_trading.Recovery.{armed_issues, conclude, may_resume_entries, order_issues, recover}
use atlas_ai_trading.Recovery.Resumption.{recover-resumes, resumes_of}
use atlas_ai_trading.Scheduler.{Ticked, consecutive_failure_limit_reached, interval_scheduler, run}
use atlas_ai_trading.Sizing.{ExchangeFilters}
use atlas_ai_trading.Tests.Fixtures.{calm}
use atlas_ai_trading.World.{Result, ok, raised, value_error}

abbrev flaky : ℕ → Ticked ℕ
flaky n = record { state = suc n; error = if leb 2 n then some (text "timeout") else none }

abbrev broken : ℕ → Ticked ℕ
broken n = record { state = suc n; error = some (text "timeout") }

flaky_stops : run flaky 10 3 0 ≡ record {
  ticks = 5;
  failures = 3;
  errors = text "timeout" ∷ text "timeout" ∷ text "timeout" ∷ [];
  sleeps = 4;
  left = 5;
}
unfolding run
flaky_stops = refl

-- Two ticks before the failures hide that their limit was reached.
limit_is_hidden : consecutive_failure_limit_reached (run flaky 10 3 0) ≡ false
unfolding run consecutive_failure_limit_reached
limit_is_hidden = refl

-- One failing tick is far from a limit of three.
limit_is_claimed : consecutive_failure_limit_reached (run broken 1 3 0) ≡ true
unfolding run consecutive_failure_limit_reached
limit_is_claimed = refl

interval_is_positive : interval_scheduler nought ≡ raised value_error
unfolding interval_scheduler ◌≼◌
interval_is_positive = refl

abbrev unknown : List RemoteOrder
unknown = record { client_order_id = some (text "atlas9"); status = some (text "NEW") } ∷ []

-- An order of ATLAS that the database does not have keeps entries off.
recover-resumes_example :
    resumes_of (recover unknown calm).0
    ≡ (not (is_armed calm) && is_clean (the_report unknown calm))
recover-resumes_example = recover-resumes unknown calm

unknown_keeps_off : is_clean (the_report unknown calm) ≡ false
unfolding local_open_orders remote_of unrecorded starts_with text_eq
unknown_keeps_off = refl

calm_resumes : resumes_of (recover [] calm).0 ≡ true
unfolding recover resumes_of reconcile remote_of unrecorded local_open_orders may_resume_entries
    conclude armed_issues order_issues is_armed read_state is_valid_record
calm_resumes = refl

abbrev filter_entry : Text → FilterEntry
filter_entry name = record {
  filter_type = some name;
  step_value = number (decimal (pos 1) 5);
  min_qty_value = number (decimal (pos 1) 5);
  min_notional_value = missing;
  notional_value = number (of_ℕ 5);
  tick_value = number (decimal (pos 1) 2);
}

abbrev listing : Text → Result InfoPayload
listing key = ok (
    symbols (
      (filter_entry (text "LOT_SIZE")
        ∷ filter_entry (text "PRICE_FILTER")
        ∷ filter_entry (text "NOTIONAL")
        ∷ [])
      ∷ []))

abbrev partial_listing : Text → Result InfoPayload
partial_listing key = ok (symbols ((filter_entry (text "LOT_SIZE") ∷ []) ∷ []))

abbrev listed : ExchangeFilters
listed = record {
  step_size = decimal (pos 1) 5;
  min_qty = decimal (pos 1) 5;
  min_notional = of_ℕ 5;
  tick_size = decimal (pos 1) 2;
}

abbrev fetched_cache : FilterCache
fetched_cache = (text "BTCUSDT", record { filters = listed; fetched_at = 100 }) ∷ []

abbrev fetched_lookup : Lookup
fetched_lookup = record { outcome = ok listed; cache = fetched_cache; requests = 1 }

fetches : get listing 86400 100 (text "btcusdt") false [] ≡ fetched_lookup
unfolding get upper parsed_answer parse_symbol_filters by_type text_eq required
fetches = refl
