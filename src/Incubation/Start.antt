-- ===== src/Incubation/Start.antt =====
-- `begin`, `run_for` and `elapsed_days` of src/atlas/incubation/tracker.py.
use atlas_ai_trading.Incubation.{
  IncubationRun, Tracker, begin, elapsed_days, is_known_in, is_run_of, run_for,
}
use atlas_ai_trading.Prelude.{
  Bool-cases, List, Option-cases, [], ap, arith, inl, inr, refl, some, true, ℕ, ◌-◌, ◌/◌, ◌==◌, ◌∙◌,
  ◌∷◌, ◌≡◌,
}
use atlas_ai_trading.Prelude.Tables.{find-append}
use atlas_ai_trading.World.{ok, ok-injective}

abbrev pub begin_all : List IncubationRun → Tracker → Tracker
begin_all [] t = t
begin_all (r ∷ rs) t = begin_all rs (begin r t).1

begin-run_for :
    (r x : IncubationRun) (t : Tracker)
    → (begin r t).0 ≡ ok x
    → run_for r.strategy_id (begin r t).1 ≡ some x
unfolding begin run_for
begin-run_for r x t h = elim (Option-cases (run_for r.strategy_id t)) [
  | inl n ↦ elim (Bool-cases (is_known_in r.strategy_id t)) [
    | inl k ↦
        let own : (r.strategy_id == r.strategy_id) ≡ true = ground arith in
        let same : r ≡ x = ok-injective r x (rw (n, k) at h) in
        rw (n, k) (find-append (is_run_of r.strategy_id) t.runs r ∙ rw (n, own) (ap some same))
    | inr m ↦ absurd (cc (rw (n, m) at h))
  ]
  | inr (y, e) ↦ let same : y ≡ x = ok-injective y x (rw e at h) in rw e (e ∙ ap some same)
]

begin-keeps :
    (i : ℕ) (x r : IncubationRun) (t : Tracker)
    → run_for i t ≡ some x
    → run_for i (begin r t).1 ≡ some x
unfolding begin run_for
begin-keeps i x r t h = elim (Option-cases (run_for r.strategy_id t)) [
  | inl n ↦ elim (Bool-cases (is_known_in r.strategy_id t)) [
    | inl k ↦ rw (n, k) (find-append (is_run_of i) t.runs r ∙ rw h refl)
    | inr m ↦ rw (n, m) h
  ]
  | inr (y, e) ↦ rw e h
]

begin_all-keeps :
    (i : ℕ) (x : IncubationRun) (rs : List IncubationRun) (t : Tracker)
    → run_for i t ≡ some x
    → run_for i (begin_all rs t) ≡ some x
begin_all-keeps i x [] t h = h
begin_all-keeps i x (r ∷ rs) t h = begin_all-keeps i x rs (begin r t).1 (begin-keeps i x r t h)

-- A strategy of the database has a start.
begin-returns :
    (r : IncubationRun) (t : Tracker)
    → is_known_in r.strategy_id t ≡ true
    → (x : IncubationRun) × ((begin r t).0 ≡ ok x)
unfolding begin
begin-returns r t k = elim (Option-cases (run_for r.strategy_id t)) [
  | inl n ↦ (r, rw (n, k) refl)
  | inr (y, e) ↦ (y, rw e refl)
]

-- For a strategy of the database, begin returns a start, and what it returns is what run_for reads from
-- then on, whatever is begun later, so that the days are always counted from the first start.
pub run_for-begin :
    (r : IncubationRun) (later : List IncubationRun) (t : Tracker) (now : ℕ)
    → is_known_in r.strategy_id t ≡ true
    → (x : IncubationRun) × ((begin r t).0 ≡ ok x)
      × (run_for r.strategy_id (begin_all later (begin r t).1) ≡ some x)
      × (elapsed_days r.strategy_id now (begin_all later (begin r t).1)
          ≡ (now - x.started_at) / 86400000)
unfolding elapsed_days
run_for-begin r later t now known =
    let (x, returned) = begin-returns r t known in
    let stays =
      begin_all-keeps r.strategy_id x later (begin r t).1 (begin-run_for r x t returned) in
    (x, returned, stays, rw stays refl)
