-- ===== src/Scheduler/Report.antt =====
-- What the report of a run says, and why a run ends early.
use atlas_ai_trading.Prelude.{
  Bool, Option, arith, is_some, length, none, some, suc, true, zero, ℕ, ◌+◌, ◌<◌, ◌≡◌, ◌≤◌, ◌⊎◌,
}
use atlas_ai_trading.Prelude.Text.{Text}
use atlas_ai_trading.Scheduler.{TickReport, Ticked, after_tick, run, run_from, streak}

-- At most the ticks that are left are counted, every failure has its error, and either all those ticks
-- have run, each with its sleep, or enough failures have been counted, the last one without its sleep.
unfoldable pub IsAccounted {ℓ} : {S : Type ℓ} → (limit left consecutive : ℕ) → TickReport S → Type 0
IsAccounted limit left consecutive r =
    (r.ticks ≤ left)
    × (r.failures ≤ r.ticks)
    × (length r.errors ≡ r.failures)
    × (((r.ticks ≡ left) × (r.sleeps ≡ r.ticks))
        ⊎ ((limit ≤ consecutive + r.failures) × (r.ticks ≡ suc r.sleeps)))

after_tick-IsAccounted {ℓ} :
    {S : Type ℓ} (limit left consecutive : ℕ) (e : Option Text) (s : S) (rest : TickReport S)
    → IsAccounted limit left (streak e consecutive) rest
    → IsAccounted limit (suc left) consecutive (after_tick limit consecutive e s rest)
unfolding IsAccounted after_tick streak
after_tick-IsAccounted limit left consecutive none s rest h = ground arith
after_tick-IsAccounted limit left consecutive (some e) s rest h = ground arith

run_from-IsAccounted {ℓ} :
    {S : Type ℓ} (tick : S → Ticked S) (limit left consecutive : ℕ) (s : S)
    → IsAccounted limit left consecutive (run_from tick limit left consecutive s)
unfolding IsAccounted run_from
run_from-IsAccounted tick limit zero consecutive s = ground arith
run_from-IsAccounted tick limit (suc left) consecutive s =
    let t = tick s in
    after_tick-IsAccounted limit left consecutive t.error t.state
      (run_from tick limit left (streak t.error consecutive) t.state)
      (run_from-IsAccounted tick limit left (streak t.error consecutive) t.state)

-- The same of a whole run.
pub run-IsAccounted {ℓ} :
    {S : Type ℓ} (tick : S → Ticked S) (max_ticks stop_after_consecutive_failures : ℕ) (s : S)
    → IsAccounted stop_after_consecutive_failures max_ticks 0
        (run tick max_ticks stop_after_consecutive_failures s)
unfolding run
run-IsAccounted tick max_ticks stop_after_consecutive_failures s =
    run_from-IsAccounted tick stop_after_consecutive_failures max_ticks 0 s

-- The state before a tick, had the loop gone on to it.
unfoldable pub state_before {ℓ} : {S : Type ℓ} → (S → Ticked S) → ℕ → S → S
state_before tick zero s = s
state_before tick (suc i) s = state_before tick i (tick s).state

-- Whether that tick raises.
abbrev pub tick_fails {ℓ} : {S : Type ℓ} → (S → Ticked S) → ℕ → S → Bool
tick_fails tick i s = is_some (tick (state_before tick i s)).error

-- The last `limit` ticks of a report raised.
EndsInFailures {ℓ} : {S : Type ℓ} → (S → Ticked S) → (limit : ℕ) → S → TickReport S → Type 0
EndsInFailures tick limit s r =
    (i : ℕ) → i < r.ticks → r.ticks ≤ i + limit → tick_fails tick i s ≡ true
