-- ===== src/Incubation/Divergence/Eligibility.antt =====
-- When incubation supports a promotion, in terms of the list of the closed trades.
use atlas_ai_trading.Audit.{count}
use atlas_ai_trading.Backtest.Stats.Drawdown.{declines, worst_of}
use atlas_ai_trading.Decimal.{Decimal, abs, max_of, nought, one, sum, ◌≺◌, ◌⊕◌, ◌⊖◌, ◌⊗◌}
use atlas_ai_trading.Incubation.{IncubationSignal, is_closed}
use atlas_ai_trading.Incubation.Divergence.{
  Curve, IncubationThresholds, check_divergence, closed_returns, compound, compound_all,
  compute_metrics, cons_return, drawdown_exceeded, has_no_reason, metrics_of, profit_factor_lost,
  reason_if, too_few_trades, too_short,
}
use atlas_ai_trading.Monitor.Health.{is_loss_of, is_win_of, profit_factor_of}
use atlas_ai_trading.Prelude.{
  Bool, Bool-cases, List, Option-cases, [], ap, arith, false, if◌then◌else◌, inl, inr, is_some,
  keep, length, ltb, map, not, or_default, refl, sym, true, ℕ, ◌&&◌, ◌∙◌, ◌∷◌, ◌≡◌,
}
use atlas_ai_trading.Regime.{positive_quotient}

-- A trade counts where it is closed and has a return.
abbrev counts : IncubationSignal → Bool
counts s = is_closed s && is_some s.return_pct

abbrev return_of_trade : IncubationSignal → Decimal
return_of_trade s = or_default s.return_pct nought

-- The returns of the trades that count.
abbrev pub counted_returns : List IncubationSignal → List Decimal
counted_returns ss = map return_of_trade (keep counts ss)

-- The equity after each return, of one unit at first.
abbrev pub equities : Decimal → List Decimal → List Decimal
equities level [] = []
equities level (r ∷ rs) = level ⊗ (one ⊕ r) ∷ equities (level ⊗ (one ⊕ r)) rs

closed_returns_lem : (ss : List IncubationSignal) → closed_returns ss ≡ counted_returns ss
unfolding closed_returns cons_return
closed_returns_lem [] = refl
closed_returns_lem (s ∷ ss) = elim (Bool-cases (is_closed s)) [
  | inl c ↦ elim (Option-cases s.return_pct) [
    | inl n ↦ rw (c, n) (closed_returns_lem ss)
    | inr (r, e) ↦ rw (c, e) (ap (λ rs. r ∷ rs) (closed_returns_lem ss))
  ]
  | inr n ↦ rw n (closed_returns_lem ss)
]

abbrev curve_at : (level peak worst : Decimal) → Curve
curve_at level peak worst = record { level = level; peak = peak; worst = worst }

compound-up :
    (level peak worst r : Decimal)
    → let next = level ⊗ (one ⊕ r) in
      let high_mark = max_of peak next in
      (nought ≺ high_mark) ≡ true
      → compound r (curve_at level peak worst)
        ≡ curve_at next high_mark (max_of worst (positive_quotient (high_mark ⊖ next) high_mark))
unfolding compound
compound-up level peak worst r p = rw p refl

compound-flat :
    (level peak worst r : Decimal)
    → let next = level ⊗ (one ⊕ r) in
      let high_mark = max_of peak next in
      (nought ≺ high_mark) ≡ false
      → compound r (curve_at level peak worst) ≡ curve_at next high_mark worst
unfolding compound
compound-flat level peak worst r n = rw n refl

-- The one pass over the returns finds the greatest decline of the equity from its peaks.
compound_all-worst :
    (level peak worst : Decimal) (rs : List Decimal)
    → (compound_all rs (curve_at level peak worst)).worst
      ≡ worst_of worst (declines peak (equities level rs))
unfolding compound_all
compound_all-worst level peak worst [] = refl
compound_all-worst level peak worst (r ∷ rs) =
    let next = level ⊗ (one ⊕ r) in
    let high_mark = max_of peak next in
    let decline = positive_quotient (high_mark ⊖ next) high_mark in
    let rest = declines high_mark (equities next rs) in
    elim (Bool-cases (nought ≺ high_mark)) [
      | inl p ↦
          let skipped : worst_of worst (if nought ≺ high_mark then decline ∷ rest else rest)
              ≡ worst_of (max_of worst decline) rest =
            rw p refl in
          ap (λ c. (compound_all rs c).worst) (compound-up level peak worst r p)
          ∙ compound_all-worst next high_mark (max_of worst decline) rs
          ∙ sym skipped
      | inr n ↦
          let skipped : worst_of worst (if nought ≺ high_mark then decline ∷ rest else rest)
              ≡ worst_of worst rest =
            rw n refl in
          ap (λ c. (compound_all rs c).worst) (compound-flat level peak worst r n)
          ∙ compound_all-worst next high_mark worst rs
          ∙ sym skipped
    ]

abbrev pub paper_drawdown : List Decimal → Decimal
paper_drawdown rs = worst_of nought (declines one (equities one rs))

abbrev pub paper_factor : List Decimal → Decimal
paper_factor rs = profit_factor_of (sum (keep is_win_of rs)) (abs (sum (keep is_loss_of rs)))

metrics_of_lem :
    (rs : List Decimal)
    → ((metrics_of rs).trade_count ≡ length rs)
      × ((metrics_of rs).paper_profit_factor ≡ paper_factor rs)
      × ((metrics_of rs).worst_drawdown ≡ paper_drawdown rs)
unfolding metrics_of profit_factor_of ◌≺◌ sum
metrics_of_lem [] = (refl, refl, refl)
metrics_of_lem (r ∷ rs) = (refl, refl, compound_all-worst one one nought (r ∷ rs))

reasons_lem :
    (a b c d : Bool)
    → has_no_reason (
        reason_if a too_short (
          reason_if b too_few_trades
            (reason_if c profit_factor_lost (reason_if d drawdown_exceeded []))))
      ≡ (not a && not b && not c && not d)
reasons_lem a b c d = ground arith

-- Incubation supports a promotion exactly where it lasted min_days, closed min_trades trades with a
-- return, kept the share of the backtest's profit factor, and, if the backtest had a drawdown, where the
-- greatest decline of the equity that its returns compound stayed within the allowed multiple of it.
pub check_divergence_lem :
    (ss : List IncubationSignal) (backtest_profit_factor backtest_drawdown : Decimal) (elapsed : ℕ)
    (t : IncubationThresholds)
    → let rs = counted_returns ss in
      (check_divergence ss backtest_profit_factor backtest_drawdown elapsed t).is_eligible ≡ (
        not (ltb elapsed t.min_days)
        && not (ltb (length rs) t.min_closed)
        && not (paper_factor rs ≺ backtest_profit_factor ⊗ t.min_profit_factor_retention)
        && not (
            (nought ≺ backtest_drawdown)
            && (backtest_drawdown ⊗ t.max_drawdown_multiple ≺ paper_drawdown rs)))
unfolding check_divergence compute_metrics
check_divergence_lem ss backtest_profit_factor backtest_drawdown elapsed t =
    let (count, factor, drawdown) = metrics_of_lem (counted_returns ss) in
    rw (closed_returns_lem ss, count, factor, drawdown) (reasons_lem _ _ _ _)
