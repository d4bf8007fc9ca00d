-- ===== src/Trading/Tick/Coverage.antt =====
-- The decisions of a tick on the configured symbols.
use atlas_ai_trading.KillSwitch.{is_armed, read_state}
use atlas_ai_trading.Prelude.{
  Bool, Bool-cases, List, Option, [], any, any-append, ap, arith, false, if◌then◌else◌, inl, inr,
  keep, map, not, or_default, refl, true, ℕ, ◌++◌, ◌||◌, ◌∙◌, ◌∷◌, ◌≡◌,
}
use atlas_ai_trading.Prelude.Text.{Text, text_eq, text_eq-eq}
use atlas_ai_trading.Reconcile.{reconcile}
use atlas_ai_trading.Spec.{StrategySpec}
use atlas_ai_trading.Trading.{
  Inputs, Service, TickResult, configured_in, fill_remaining, log_tick, names, record_decisions,
  supervise_all,
}
use atlas_ai_trading.Trading.Decisions.{SymbolDecision, bare_decision}
use atlas_ai_trading.Trading.Tick.{
  Deployed, after_limits, after_loop, check_account, conclude, distinct, each_symbol, entries,
  finish, live_strategies_by_symbol, sort_texts, start_loop, start_result, tick, tick_at, told_halt,
  universe_of, without,
}
use atlas_ai_trading.World.{
  DecisionOutcome, Gives, World, bind-Gives, decision_halted, entries_suspended, if-Gives, ok, pure,
  pure-Gives, ◌>>=◌,
}

abbrev pub is_among : Text → List Text → Bool
is_among s ss = any (λ c. text_eq c s) ss

-- Every one of some symbols has a decision.
abbrev pub Covers : List Text → TickResult → Type 0
Covers ss r = (s : Text) → is_among s ss ≡ true → any (names s) r.decisions ≡ true

-- A symbol without a decision is among those that are filled in.
filled-names :
    (outcome : DecisionOutcome) (ds : List SymbolDecision) (s : Text) (ss : List Text)
    → any (names s) ds ≡ false
    → is_among s ss ≡ true
    → any (names s) (map (λ c. bare_decision c outcome) (keep (λ c. not (any (names c) ds)) ss))
      ≡ true
filled-names outcome ds s [] n h = absurd cc
filled-names outcome ds s (c ∷ ss) n h = elim (Bool-cases (text_eq c s)) [
  | inl e ↦
      let same : c ≡ s = text_eq-eq c s e in
      let open_one : not (any (names c) ds) ≡ true = rw (same, n) refl in rw (open_one, e) refl
  | inr d ↦
      let rest = filled-names outcome ds s ss n (rw d at h) in
      elim (Bool-cases (not (any (names c) ds))) [ inl k ↦ rw (k, d) rest | inr k ↦ rw k rest ]
]

fill_remaining-Covers :
    (ss : List Text) (outcome : DecisionOutcome) (r : TickResult)
    → Covers ss (fill_remaining ss outcome r)
unfolding fill_remaining
fill_remaining-Covers ss outcome r s h =
    let more =
      map (λ c. bare_decision c outcome) (keep (λ c. not (any (names c) r.decisions)) ss) in
    rw (any-append (names s) r.decisions more) (elim (Bool-cases (any (names s) r.decisions)) [
      | inl k ↦ rw k refl
      | inr k ↦ rw (k, filled-names outcome r.decisions s ss k h) refl
    ])

without-among :
    (s c : Text) (ss : List Text) → text_eq c s ≡ false → is_among s (without c ss) ≡ is_among s ss
unfolding without
without-among s c [] d = refl
without-among s c (x ∷ ss) d = elim (Bool-cases (text_eq c x)) [
  | inl e ↦
      let same : c ≡ x = text_eq-eq c x e in
      let off : text_eq x s ≡ false = rw (← same) d in rw (e, off) (without-among s c ss d)
  | inr n ↦ rw n (ap (λ b. text_eq x s || b) (without-among s c ss d))
]

distinct-among : (s : Text) (ss : List Text) → is_among s (distinct ss) ≡ is_among s ss
unfolding distinct
distinct-among s [] = refl
distinct-among s (c ∷ ss) = elim (Bool-cases (text_eq c s)) [
  | inl e ↦ rw e refl
  | inr d ↦ rw d (without-among s c (distinct ss) d ∙ distinct-among s ss)
]

-- The universe has every configured symbol.
universe-Covers :
    (configured : List Text) (g : Deployed) (r : TickResult)
    → Covers (universe_of configured g) r
    → Covers configured r
unfolding universe_of
universe-Covers configured g r h s c =
    let deployed_symbols =
      sort_texts (map (λ (p : Text × List (ℕ × Option StrategySpec)). p.0) g) in
    h s (
      distinct-among s (configured ++ deployed_symbols)
      ∙ ground (arith, any-append (λ x. text_eq x s) configured deployed_symbols))

module _ (v : Service) (t : Inputs) where
  finish-Covers : (ss : List Text) (r : TickResult) → Covers ss r → Gives (Covers ss) (finish v t r)
  unfolding finish conclude
  finish-Covers ss r c = bind-Gives (Covers ss) (supervise_all v t) (conclude v t r) λ gone.
      bind-Gives (Covers ss) (log_tick (record r { retired = gone }))
        (λ _. pure (record r { retired = gone }))
        (λ _. pure-Gives (Covers ss) (record r { retired = gone }) c)

  abbrev configured : List Text
  configured = configured_in t

  entries-Covers :
      (reference : ℕ) (r : TickResult) → Gives (Covers configured) (entries v t reference r)
  unfolding entries after_loop
  entries-Covers reference r w =
      let g = live_strategies_by_symbol v w in
      let universe = universe_of configured g in
      bind-Gives (Covers configured) (each_symbol v t reference g universe (start_loop v t r))
        (after_loop v t universe)
        (λ l.
          let filled = fill_remaining universe decision_halted l.result in
          bind-Gives (Covers configured) (record_decisions filled.decisions)
            (λ _. finish v t filled)
            (λ _. finish-Covers configured filled (
              universe-Covers configured g filled
                (fill_remaining-Covers universe decision_halted l.result))))
        w

  after_limits-Covers :
      (reference : ℕ) (r : TickResult) → Gives (Covers configured) (after_limits v t reference r)
  unfolding after_limits
  after_limits-Covers reference r w =
      let told = told_halt (read_state w).reason r in
      let halted_result = fill_remaining configured decision_halted told in
      let suspended_result = fill_remaining configured entries_suspended r in
      if-Gives (Covers configured) (is_armed w) (finish v t halted_result)
        (if r.is_suspended then finish v t suspended_result else entries v t reference r)
        (finish-Covers configured halted_result
          (fill_remaining-Covers configured decision_halted told))
        (if-Gives (Covers configured) r.is_suspended (finish v t suspended_result)
          (entries v t reference r)
          (finish-Covers configured suspended_result
            (fill_remaining-Covers configured entries_suspended r))
          (entries-Covers reference r))
        w

  -- Where a tick returns, every configured symbol has a decision.
  pub tick-Covers :
      (w : World) (r : TickResult) → (tick v t w).0 ≡ ok r → Covers (configured_in t) r
  unfolding tick tick_at
  tick-Covers w r h =
      let reference = or_default t.now w.clock in
      let start = start_result reference in
      bind-Gives (Covers configured) (reconcile t.exchange_orders)
        (λ _. check_account v t start >>= after_limits v t reference)
        (λ _.
          bind-Gives (Covers configured) (check_account v t start) (after_limits v t reference)
            (λ r'. after_limits-Covers reference r'))
        w r h
