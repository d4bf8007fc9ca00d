-- ===== src/Scheduler.antt =====
-- src/atlas/runtime/scheduler.py: a tick is run at an interval. A tick is a function from the state to
-- the state it leaves and, where it raises, the text of its error; the clock's `sleep` is counted.
pub mod Report
use atlas_ai_trading.Decimal.{Decimal, nought, ◌≼◌}
use atlas_ai_trading.Prelude.{
  Bool, List, Option, [], if◌then◌else◌, leb, ltb, none, some, suc, zero, ℕ, ◌&&◌, ◌==◌, ◌∷◌,
}
use atlas_ai_trading.Prelude.Text.{Text}
use atlas_ai_trading.World.{Result, ok, raised, value_error}

-- The constructor: the interval, or `ValueError`.
unfoldable pub interval_scheduler : Decimal → Result Decimal
interval_scheduler interval_seconds =
    if interval_seconds ≼ nought then raised value_error else ok interval_seconds

-- What one tick leaves, and the error it raised.
pub record Ticked {ℓ} (S : Type ℓ) : Type ℓ where
  pub state : S
  pub error : Option Text

-- `TickReport`, with the number of sleeps, and the state that the ticks have left.
pub record TickReport {ℓ} (S : Type ℓ) : Type ℓ where
  pub ticks : ℕ
  pub failures : ℕ
  pub errors : List Text
  pub sleeps : ℕ
  pub left : S

-- A tick of which the loop goes on, before the rest of the loop.
unfoldable pub passed {ℓ} : {S : Type ℓ} → Option Text → TickReport S → TickReport S
passed none r = record {
  ticks = suc r.ticks;
  failures = r.failures;
  errors = r.errors;
  sleeps = suc r.sleeps;
  left = r.left;
}
passed (some e) r = record {
  ticks = suc r.ticks;
  failures = suc r.failures;
  errors = e ∷ r.errors;
  sleeps = suc r.sleeps;
  left = r.left;
}

-- The failing tick at which the loop stops: it does not sleep after it.
abbrev pub stopped {ℓ} : {S : Type ℓ} → Text → S → TickReport S
stopped e s = record { ticks = 1; failures = 1; errors = e ∷ []; sleeps = 0; left = s }

-- The failures in a row after a tick.
unfoldable pub streak : Option Text → ℕ → ℕ
streak none consecutive = 0
streak (some e) consecutive = suc consecutive

-- What a tick makes of the rest of the loop, after `consecutive` failures in a row.
unfoldable pub after_tick {ℓ} :
    {S : Type ℓ} → (limit consecutive : ℕ) → Option Text → S → TickReport S → TickReport S
unfolding passed
after_tick limit consecutive none s rest = passed none rest
after_tick limit consecutive (some e) s rest =
    if leb limit (suc consecutive) then stopped e s else passed (some e) rest

-- The rounds of the loop that are left.
unfoldable pub run_from {ℓ} :
    {S : Type ℓ} → (S → Ticked S) → (limit left consecutive : ℕ) → S → TickReport S
unfolding after_tick streak
run_from tick limit zero consecutive s = record {
  ticks = 0;
  failures = 0;
  errors = [];
  sleeps = 0;
  left = s;
}
run_from tick limit (suc left) consecutive s =
    let t = tick s in
    after_tick limit consecutive t.error t.state
      (run_from tick limit left (streak t.error consecutive) t.state)

-- `IntervalScheduler.run`
unfoldable pub run {ℓ} :
    {S : Type ℓ}
    → (S → Ticked S)
    → (max_ticks stop_after_consecutive_failures : ℕ) → S
    → TickReport S
unfolding run_from
run tick max_ticks stop_after_consecutive_failures =
    run_from tick stop_after_consecutive_failures max_ticks 0

-- `TickReport.consecutive_failure_limit_reached`
unfoldable pub consecutive_failure_limit_reached {ℓ} : {S : Type ℓ} → TickReport S → Bool
consecutive_failure_limit_reached r = ltb 0 r.failures && r.failures == r.ticks
