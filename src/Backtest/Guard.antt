-- ===== src/Backtest/Guard.antt =====
-- The guard against look-ahead, and the length of a run.
use mathlib.Core.Option.{some-injective}
use atlas_ai_trading.Backtest.{
  Engine, Setup, arm_signal, bar_at, fill_pending, manage, marked, on_bar, run_bars,
}
use atlas_ai_trading.Backtest.Bars.{GuardedBars, advance_to, guarded_get}
use atlas_ai_trading.Market.{Kline}
use atlas_ai_trading.Prelude.{
  List, Option-cases, arith, get_elem?, inl, inr, length, none, refl, some, suc, sym, zero, ℕ, ◌+◌,
  ◌<◌, ◌↔◌, ◌∙◌, ◌≡◌, ◌≤◌, ◌⊎◌,
}
use atlas_ai_trading.Prelude.Slices.{get_elem?-in_range}
use atlas_ai_trading.World.{
  Error, arithmetic_error, index_error, lookahead_error, ok, ok-injective, raised,
}

-- A bar beyond the frontier is refused, and no other is refused as one.
pub guarded_get-lookahead :
    (g : GuardedBars) (i j : ℕ) → guarded_get (advance_to i g) j ≡ raised lookahead_error ↔ (i < j)
unfolding guarded_get advance_to
guarded_get-lookahead g i j = (λ h. ground arith, λ h. ground arith)

bar_at-in_range :
    (ks : List Kline) (i : ℕ)
    → i < length ks
    → (k : Kline) × (get_elem? ks i ≡ some k) × (bar_at ks i ≡ ok k)
unfolding guarded_get advance_to
bar_at-in_range ks i h = let (k, e) = get_elem?-in_range ks i h in (k, e, rw e (ground arith))

module _ (u : Setup) (ks : List Kline) (i n : ℕ) (e : Engine) where
  run_bars_refused : (x : Error) → bar_at ks i ≡ raised x → run_bars u ks i (suc n) e ≡ raised x
  unfolding run_bars
  run_bars_refused x q = rw (run_bars, q) refl

  run_bars_divides :
      (k : Kline)
      → bar_at ks i ≡ ok k
      → on_bar u i k e ≡ none
      → run_bars u ks i (suc n) e ≡ raised arithmetic_error
  unfolding run_bars
  run_bars_divides k q s = rw (run_bars, q) (rw s refl)

  run_bars_goes_on :
      (k : Kline) (v : Engine)
      → bar_at ks i ≡ ok k
      → on_bar u i k e ≡ some v
      → run_bars u ks i (suc n) e ≡ run_bars u ks (i + 1) n v
  unfolding run_bars
  run_bars_goes_on k v q s = rw (run_bars, q) (rw s refl)

  bar_at-out : get_elem? ks i ≡ none → bar_at ks i ≡ raised index_error
  unfolding guarded_get advance_to
  bar_at-out q = rw q (ground arith)

  bar_at-in : (k : Kline) → get_elem? ks i ≡ some k → bar_at ks i ≡ ok k
  unfolding guarded_get advance_to
  bar_at-in k q = rw q (ground arith)

  -- A round of a run that returned.
  run_bars_inverse :
      (v : Engine)
      → run_bars u ks i (suc n) e ≡ ok v
      → (k : Kline) × (mid : Engine) × (get_elem? ks i ≡ some k)
        × (on_bar u i k e ≡ some mid)
        × (run_bars u ks (i + 1) n mid ≡ ok v)
  run_bars_inverse v h = elim (Option-cases (get_elem? ks i)) [
    | inl out ↦ absurd (cc (run_bars_refused index_error (bar_at-out out)))
    | inr (k, q) ↦ elim (Option-cases (on_bar u i k e)) [
      | inl s ↦ absurd (cc (run_bars_divides k (bar_at-in k q) s))
      | inr (mid, s) ↦ (k, mid, q, s, sym (run_bars_goes_on k mid (bar_at-in k q) s) ∙ h)
    ]
  ]

-- What each bar keeps is kept by the loop, for a predicate on the state before each index.
pub run_bars-keeps {κ} :
    (P : ℕ → Engine → Type κ) (u : Setup) (ks : List Kline)
    → ((i : ℕ) (k : Kline) (e e' : Engine)
        → get_elem? ks i ≡ some k
        → on_bar u i k e ≡ some e'
        → P i e
        → P (i + 1) e')
    → (i n : ℕ) (e e' : Engine) → run_bars u ks i n e ≡ ok e'
    → P i e
    → P (i + n) e'
unfolding run_bars
run_bars-keeps P u ks step i zero e e' h p =
    let same : e ≡ e' = ok-injective e e' h in
    let here : i + 0 ≡ i = omega arith in rw (here, ← same) p
run_bars-keeps P u ks step i (suc n) e e' h p =
    let (k, mid, q, s, r) = run_bars_inverse u ks i n e e' h in
    let there : i + suc n ≡ i + 1 + n = omega arith in
    rw there (run_bars-keeps P u ks step (i + 1) n mid e' r (step i k e mid q s p))

-- A run of the loop within its bars ends, or divides by zero: it never reads ahead.
pub run_bars-ends :
    (u : Setup) (ks : List Kline) (i n : ℕ) (e : Engine)
    → i + n ≤ length ks
    → (run_bars u ks i n e ≡ raised arithmetic_error)
      ⊎ ((e' : Engine) × (run_bars u ks i n e ≡ ok e'))
unfolding run_bars
run_bars-ends u ks i zero e h = inr (e, refl)
run_bars-ends u ks i (suc n) e h =
    let (k, q) = get_elem?-in_range ks i (omega arith) in
    elim (Option-cases (on_bar u i k e)) [
      | inl s ↦ inl (run_bars_divides u ks i n e k (bar_at-in u ks i n e k q) s)
      | inr (mid, s) ↦
          rw (run_bars_goes_on u ks i n e k mid (bar_at-in u ks i n e k q) s)
            (run_bars-ends u ks (i + 1) n mid (omega arith))
    ]

-- A round of the loop that returned, by its three parts.
pub on_bar_inverse :
    (u : Setup) (i : ℕ) (k : Kline) (e e' : Engine)
    → on_bar u i k e ≡ some e'
    → (mid : Engine) × (fill_pending u i k e ≡ some mid)
      × (marked (arm_signal u i (manage u i k mid)) ≡ e')
unfolding on_bar
on_bar_inverse u i k e e' h = elim (Option-cases (fill_pending u i k e)) [
  | inl n ↦ absurd (cc (rw n at h))
  | inr (mid, q) ↦
      (mid, q, some-injective (marked (arm_signal u i (manage u i k mid))) e' (rw q at h))
]
