-- ===== src/Trading/Tick/Silence.antt =====
-- The ticks that send nothing.
use mathlib.Core.Path.{subst}
use atlas_ai_trading.KillSwitch.{arm, is_armed, is_valid_record, read_state}
use atlas_ai_trading.KillSwitch.Latch.{arm-halts, arm-invalid}
use atlas_ai_trading.Limits.{check_portfolio_limits}
use atlas_ai_trading.Prelude.{
  Bool, Bool-cases, List, Option, ap, false, if◌then◌else◌, inl, inr, none, or_default, refl, some,
  sym, true, ℕ, ◌∙◌, ◌≡◌, ◌⊎◌,
}
use atlas_ai_trading.Prelude.Text.{Text}
use atlas_ai_trading.Reconcile.{ReconciliationReport, RemoteOrder, is_clean, reconcile}
use atlas_ai_trading.Reconcile.Arming.{
  arm_result, reconcile_clean, reconcile_raises, reconcile_world, repaired_world, the_report,
}
use atlas_ai_trading.Trading.{
  Inputs, Service, TickResult, configured_in, fill_remaining, log_tick, supervise_all,
  trading_actor,
}
use atlas_ai_trading.Trading.Exposure.{
  arm-exposure, exposure, reconcile-exposure, supervise_all-exposure,
}
use atlas_ai_trading.Trading.Tick.{
  after_limits, breached, check_account, conclude, entries, finish, on_breach, start_result, tick,
  tick_at, told_halt,
}
use atlas_ai_trading.World.{
  Action, Keeps, KillSwitchRecord, KillSwitchTrigger, Result-cases, World, arithmetic_error,
  bind-Keeps, bind-keeps_at, bind-ok, bind-raised, decision_halted, entries_suspended, if-Keeps,
  log, ok, ok-injective, or_raise, or_raise-Keeps, pure, raised, sqlite_error, system, unpriced,
  ◌>>=◌, ◌>>◌,
}

module _ (v : Service) (t : Inputs) where
  finish-exposure : (r : TickResult) → Keeps exposure (finish v t r)
  unfolding finish conclude log_tick
  finish-exposure r =
      bind-Keeps exposure (supervise_all v t) (conclude v t r) (supervise_all-exposure v t)
        (λ gone w. refl)

-- An arming that returned.
arm-armed :
    (trigger : KillSwitchTrigger) (reason actor : Text) (w v : World) (r : KillSwitchRecord)
    → arm trigger reason actor w ≡ (ok r, v)
    → is_armed v ≡ true
arm-armed trigger reason actor w v r e = elim (Bool-cases (is_valid_record reason actor)) [
  | inl y ↦
      subst (λ p. is_armed p.1 ≡ true) e
        (arm-halts trigger reason actor w y
          (λ q. absurd (cc (subst (λ p. p.0 ≡ raised sqlite_error) e q))))
  | inr n ↦ absurd (cc (arm-invalid trigger reason actor w n))
]

armed_of_repaired :
    (xs : List RemoteOrder) (w : World) → is_armed w ≡ true → is_armed (repaired_world xs w) ≡ true
unfolding is_armed
armed_of_repaired xs w h = h

reconcile-stays_armed :
    (xs : List RemoteOrder) (w v : World) (r : ReconciliationReport)
    → reconcile xs w ≡ (ok r, v)
    → is_armed w ≡ true
    → is_armed v ≡ true
reconcile-stays_armed xs w v r e h = elim (Bool-cases (is_clean (the_report xs w))) [
  | inl c ↦
      let same : repaired_world xs w ≡ v = ap (λ p. p.1) (sym (reconcile_clean xs w c) ∙ e) in
      subst (λ u. is_armed u ≡ true) same (armed_of_repaired xs w h)
  | inr c ↦ elim (Result-cases (arm_result xs w)) [
    | inl (k, u, q) ↦
        let same : u ≡ v =
          sym (ap (λ p. p.1) q) ∙ (sym (reconcile_world xs w c) ∙ ap (λ p. p.1) e) in
        subst (λ x. is_armed x ≡ true) same (arm-armed _ _ _ (repaired_world xs w) u k q)
    | inr (x, u, q) ↦ absurd (cc (reconcile_raises xs w x c (ap (λ p. p.0) q), ap (λ p. p.0) e))
  ]
]

-- A state and a result with which no entry is attempted.
abbrev IsBlocked : TickResult → World → Type 0
IsBlocked r w = (is_armed w ≡ true) ⊎ (r.is_suspended ≡ true)

stopped-exposure :
    {A : Type 0} (b s : Bool) (m n o : Action A) (w : World)
    → (b ≡ true) ⊎ (s ≡ true)
    → Keeps exposure m
    → Keeps exposure n
    → exposure ((if b then m else if s then n else o) w).1 ≡ exposure w
stopped-exposure true s m n o w h k l = k w
stopped-exposure false true m n o w h k l = l w
stopped-exposure false false m n o w (inl h) k l = absurd (cc h)
stopped-exposure false false m n o w (inr h) k l = absurd (cc h)

module _ (v : Service) (t : Inputs) where
  after_limits-exposure :
      (reference : ℕ) (r : TickResult) (w : World)
      → IsBlocked r w
      → exposure (after_limits v t reference r w).1 ≡ exposure w
  unfolding after_limits
  after_limits-exposure reference r w m =
      let told = told_halt (read_state w).reason r in
      let halted_result = fill_remaining (configured_in t) decision_halted told in
      let suspended_result = fill_remaining (configured_in t) entries_suspended r in
      stopped-exposure (is_armed w) r.is_suspended (finish v t halted_result)
        (finish v t suspended_result) (entries v t reference r) w m
        (finish-exposure v t halted_result) (finish-exposure v t suspended_result)

  -- What stops a tick from entering anything.
  abbrev pub MayNotEnter : World → Type 0
  MayNotEnter w =
      (is_armed w ≡ true)
      ⊎ (t.account.valuation_complete ≡ false)
      ⊎ ((trigger : KillSwitchTrigger) × (check_portfolio_limits t.account v.limits
            ≡ some (some trigger)))

  on_breach-exposure :
      (r : TickResult) (b : Option KillSwitchTrigger) → Keeps exposure (on_breach v t r b)
  unfolding on_breach
  on_breach-exposure r none = λ w. refl
  on_breach-exposure r (some trigger) =
      let reason = v.breach_text trigger t.account in
      bind-Keeps exposure (arm trigger reason trading_actor) (λ _. pure (breached reason r))
        (arm-exposure trigger reason trading_actor) (λ k w. refl)

  check_account-exposure : (r : TickResult) → Keeps exposure (check_account v t r)
  unfolding check_account
  check_account-exposure r =
      if-Keeps exposure t.account.valuation_complete
        (or_raise (check_portfolio_limits t.account v.limits) arithmetic_error >>= on_breach v t r)
        (log system (unpriced t.account.unpriced_symbols) trading_actor
          >> pure (record r { is_suspended = true }))
        (bind-Keeps exposure (or_raise (check_portfolio_limits t.account v.limits) arithmetic_error)
          (on_breach v t r)
          (or_raise-Keeps exposure (check_portfolio_limits t.account v.limits) arithmetic_error)
          (on_breach-exposure r))
        (λ w. refl)

  limits-IsBlocked :
      (r r' : TickResult) (w u : World) (x : Option (Option KillSwitchTrigger))
      → (is_armed w ≡ true) ⊎ ((trigger : KillSwitchTrigger) × (x ≡ some (some trigger)))
      → (or_raise x arithmetic_error >>= on_breach v t r) w ≡ (ok r', u)
      → IsBlocked r' u
  unfolding on_breach
  limits-IsBlocked r r' w u none m e = absurd cc
  limits-IsBlocked r r' w u (some none) (inl h) e =
      let same : w ≡ u = ap (λ p. p.1) e in inl (subst (λ x. is_armed x ≡ true) same h)
  limits-IsBlocked r r' w u (some none) (inr (trigger, q)) e = absurd (cc q)
  limits-IsBlocked r r' w u (some (some trigger)) m e =
      let reason = v.breach_text trigger t.account in
      let go : Action TickResult = arm trigger reason trading_actor >> pure (breached reason r) in
      elim (Result-cases (arm trigger reason trading_actor w)) [
        | inl (k, x, q) ↦
            let runs : go w ≡ (ok (breached reason r), x) =
              bind-ok (arm trigger reason trading_actor) (λ _. pure (breached reason r)) k w x q in
            let same : x ≡ u = ap (λ p. p.1) (sym runs ∙ e) in
            inl
              (subst (λ y. is_armed y ≡ true) same (arm-armed trigger reason trading_actor w x k q))
        | inr (f, x, q) ↦
            let runs : go w ≡ (raised f, x) =
              bind-raised (arm trigger reason trading_actor) (λ _. pure (breached reason r)) f w x
                q in
            absurd (cc (ap (λ p. p.0) (sym runs ∙ e)))
      ]

  limited_by :
      (w : World)
      → t.account.valuation_complete ≡ true
      → MayNotEnter w
      → (is_armed w ≡ true)
        ⊎ ((trigger : KillSwitchTrigger) × (check_portfolio_limits t.account v.limits
              ≡ some (some trigger)))
  limited_by w y (inl h) = inl h
  limited_by w y (inr (inl n)) = absurd (cc (n, y))
  limited_by w y (inr (inr b)) = inr b

  suspended-result :
      (r r' : TickResult) (w u : World)
      → (log system (unpriced t.account.unpriced_symbols) trading_actor
            >> pure (record r { is_suspended = true }))
          w
        ≡ (ok r', u)
      → r'.is_suspended ≡ true
  suspended-result r r' w u e =
      let same : record r { is_suspended = true } ≡ r' =
        ok-injective (record r { is_suspended = true }) r' (ap (λ p. p.0) e) in
      ap (λ (x : TickResult). x.is_suspended) (sym same)

  check_account-IsBlocked :
      (r r' : TickResult) (w u : World)
      → MayNotEnter w
      → check_account v t r w ≡ (ok r', u)
      → IsBlocked r' u
  unfolding check_account
  check_account-IsBlocked r r' w u m e =
      let x = check_portfolio_limits t.account v.limits in
      let limited = or_raise x arithmetic_error >>= on_breach v t r in
      let suspended_action =
        log system (unpriced t.account.unpriced_symbols) trading_actor
        >> pure (record r { is_suspended = true }) in
      let chosen : Bool → Type 0 = λ b. (if b then limited else suspended_action) w ≡ (ok r', u) in
      elim (Bool-cases t.account.valuation_complete) [
        | inl y ↦ limits-IsBlocked r r' w u x (limited_by w y m) (subst chosen y e)
        | inr n ↦ inr (suspended-result r r' w u (subst chosen n e))
      ]

  reconcile-MayNotEnter :
      (w u : World) (r : ReconciliationReport)
      → reconcile t.exchange_orders w ≡ (ok r, u)
      → MayNotEnter w
      → MayNotEnter u
  reconcile-MayNotEnter w u r e (inl h) = inl (reconcile-stays_armed t.exchange_orders w u r e h)
  reconcile-MayNotEnter w u r e (inr h) = inr h

  -- While the kill switch is armed, where the account cannot be valued, and where it breaches a
  -- limit, a tick sends nothing and leaves the positions as they are, whether it returns or raises.
  pub tick-exposure : (w : World) → MayNotEnter w → exposure (tick v t w).1 ≡ exposure w
  unfolding tick tick_at
  tick-exposure w m =
      let reference = or_default t.now w.clock in
      let start = start_result reference in
      bind-keeps_at exposure (reconcile t.exchange_orders)
        (λ _. check_account v t start >>= after_limits v t reference) w
        (reconcile-exposure t.exchange_orders w)
        (λ r u e.
          bind-keeps_at exposure (check_account v t start) (after_limits v t reference) u
            (check_account-exposure start u)
            (λ r' u' e'.
              after_limits-exposure reference r' u'
                (check_account-IsBlocked start r' u u' (reconcile-MayNotEnter w u r e m) e')))
