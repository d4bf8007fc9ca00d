-- ===== src/Trading/Tick/Kept.antt =====
-- What the loop keeps holds of the result of a tick.
use atlas_ai_trading.KillSwitch.{arm, is_armed, read_state}
use atlas_ai_trading.Limits.{check_portfolio_limits}
use atlas_ai_trading.Prelude.{
  List, Option, [], false, if◌then◌else◌, none, or_default, refl, some, true, ℕ, ◌≡◌,
}
use atlas_ai_trading.Prelude.Text.{Text}
use atlas_ai_trading.Reconcile.{reconcile}
use atlas_ai_trading.Spec.{StrategySpec}
use atlas_ai_trading.Trading.{
  Inputs, Service, TickResult, configured_in, fill_remaining, log_tick, record_decisions,
  supervise_all, trading_actor,
}
use atlas_ai_trading.Trading.Decisions.{is_entry}
use atlas_ai_trading.Trading.Steps.{Loop}
use atlas_ai_trading.Trading.Steps.Rules.{IsClosed, is_declined}
use atlas_ai_trading.Trading.Tick.{
  after_limits, after_loop, breached, check_account, conclude, each_symbol, entries, finish,
  live_strategies_by_symbol, on_breach, start_loop, start_result, tick, tick_at, told_halt,
  universe_of,
}
use atlas_ai_trading.Trading.Tick.Rounds.{each_symbol-Gives, live_strategies-Keyed}
use atlas_ai_trading.World.{
  DecisionOutcome, Gives, KillSwitchTrigger, arithmetic_error, bind-Gives, bind-Gives_from,
  decision_halted, entries_suspended, if-Gives, log, or_raise, pure, pure-Gives, system, unpriced,
  ◌>>=◌, ◌>>◌,
}

-- Nothing is decided before the loop.
pub record IsBlank (r : TickResult) : Type 0 where
  pub undecided : r.decisions ≡ []
  pub none_placed : r.entries_placed ≡ 0
  pub none_rejected : r.entries_rejected ≡ 0

-- A predicate on the loop and one on results that fit together at both ends of the loop.
pub record IsFraming (v : Service) (t : Inputs) (L : Loop → Type 0) (P : TickResult → Type 0)
    : Type 0 where
  pub begins : (r : TickResult) → IsBlank r → L (start_loop v t r)
  pub blank : (r : TickResult) → IsBlank r → P r
  pub ends : (l : Loop) → L l → P l.result
  pub retire : (gone : List ℕ) (r : TickResult) → P r → P (record r { retired = gone })
  pub fill :
      (universe : List Text) (outcome : DecisionOutcome) (r : TickResult)
      → is_entry outcome ≡ false
      → is_declined outcome ≡ false
      → P r
      → P (fill_remaining universe outcome r)

on_breach-Gives :
    (v : Service) (t : Inputs) (r : TickResult) (b : Option KillSwitchTrigger)
    → IsBlank r
    → Gives IsBlank (on_breach v t r b)
unfolding on_breach
on_breach-Gives v t r none c = pure-Gives IsBlank r c
on_breach-Gives v t r (some trigger) c =
    let reason = v.breach_text trigger t.account in
    bind-Gives IsBlank (arm trigger reason trading_actor) (λ _. pure (breached reason r))
      (λ _. pure-Gives IsBlank (breached reason r) (record {
        undecided = c.undecided;
        none_placed = c.none_placed;
        none_rejected = c.none_rejected;
      }))

check_account-Gives :
    (v : Service) (t : Inputs) (r : TickResult) → IsBlank r → Gives IsBlank (check_account v t r)
unfolding check_account
check_account-Gives v t r c =
    let suspended = record r { is_suspended = true } in
    let limits = or_raise (check_portfolio_limits t.account v.limits) arithmetic_error in
    let told = log system (unpriced t.account.unpriced_symbols) trading_actor in
    if-Gives IsBlank t.account.valuation_complete (limits >>= on_breach v t r)
      (told >> pure suspended)
      (bind-Gives IsBlank limits (on_breach v t r) (λ b. on_breach-Gives v t r b c))
      (bind-Gives IsBlank told (λ _. pure suspended)
        (λ _. pure-Gives IsBlank suspended (record {
          undecided = c.undecided;
          none_placed = c.none_placed;
          none_rejected = c.none_rejected;
        })))

module _ (v : Service) (t : Inputs) (Q : Text → Type 0) (L : Loop → Type 0)
    (P : TickResult → Type 0) (closed : IsClosed t Q L) (framing : IsFraming v t L P)
    (known : (spec_hash : Text) (s : StrategySpec) → v.specs spec_hash ≡ some s → Q s.symbol) where
  finish-Gives : (r : TickResult) → P r → Gives P (finish v t r)
  unfolding finish conclude
  finish-Gives r c = bind-Gives P (supervise_all v t) (conclude v t r) λ gone.
      bind-Gives P (log_tick (record r { retired = gone }))
        (λ _. pure (record r { retired = gone }))
        (λ _. pure-Gives P (record r { retired = gone }) (framing.retire gone r c))

  after_loop-Gives : (universe : List Text) (l : Loop) → L l → Gives P (after_loop v t universe l)
  unfolding after_loop
  after_loop-Gives universe l c =
      let filled = fill_remaining universe decision_halted l.result in
      bind-Gives P (record_decisions filled.decisions) (λ _. finish v t filled)
        (λ _.
          finish-Gives filled
            (framing.fill universe decision_halted l.result refl refl (framing.ends l c)))

  entries-Gives : (reference : ℕ) (r : TickResult) → IsBlank r → Gives P (entries v t reference r)
  unfolding entries
  entries-Gives reference r c w =
      let g = live_strategies_by_symbol v w in
      let universe = universe_of (configured_in t) g in
      bind-Gives_from L P (each_symbol v t reference g universe (start_loop v t r))
        (after_loop v t universe)
        (each_symbol-Gives v t Q L closed reference g universe (start_loop v t r)
          (live_strategies-Keyed Q v w known) (framing.begins r c))
        (λ l d. after_loop-Gives universe l d) w

  after_limits-Gives :
      (reference : ℕ) (r : TickResult) → IsBlank r → Gives P (after_limits v t reference r)
  unfolding after_limits
  after_limits-Gives reference r c w =
      let told = told_halt (read_state w).reason r in
      let halted_result = fill_remaining (configured_in t) decision_halted told in
      let suspended_result = fill_remaining (configured_in t) entries_suspended r in
      let told_blank : IsBlank told = record {
        undecided = c.undecided;
        none_placed = c.none_placed;
        none_rejected = c.none_rejected;
      } in
      if-Gives P (is_armed w) (finish v t halted_result)
        (if r.is_suspended then finish v t suspended_result else entries v t reference r)
        (finish-Gives halted_result (
          framing.fill (configured_in t) decision_halted told refl refl
            (framing.blank told told_blank)))
        (if-Gives P r.is_suspended (finish v t suspended_result) (entries v t reference r)
          (finish-Gives suspended_result
            (framing.fill (configured_in t) entries_suspended r refl refl (framing.blank r c)))
          (entries-Gives reference r c))
        w

  -- The result of a tick satisfies what fits the loop.
  pub tick-Gives : Gives P (tick v t)
  unfolding tick tick_at
  tick-Gives w r h =
      let reference = or_default t.now w.clock in
      let start = start_result reference in
      let begun : IsBlank start = record {
        undecided = refl;
        none_placed = refl;
        none_rejected = refl;
      } in
      bind-Gives P (reconcile t.exchange_orders)
        (λ _. check_account v t start >>= after_limits v t reference)
        (λ _.
          bind-Gives_from IsBlank P (check_account v t start) (after_limits v t reference)
            (check_account-Gives v t start begun) (λ r' c. after_limits-Gives reference r' c))
        w r h
