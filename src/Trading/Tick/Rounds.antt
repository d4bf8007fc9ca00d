-- ===== src/Trading/Tick/Rounds.antt =====
-- What every change keeps is kept by the loop over the universe.
use mathlib.Core.Path.{subst}
use atlas_ai_trading.Ledger.{has_strategy_id}
use atlas_ai_trading.Market.{KlineSeries}
use atlas_ai_trading.Prelude.{
  All, All-append, Bool-cases, List, Option, [], find, inl, inr, none, refl, some, sym, ℕ, ◌∷◌, ◌≡◌,
}
use atlas_ai_trading.Prelude.Text.{Text, text_eq, text_eq-eq}
use atlas_ai_trading.Registry.{list_by_status}
use atlas_ai_trading.Spec.{StrategySpec}
use atlas_ai_trading.Trading.{Inputs, Service, series_for}
use atlas_ai_trading.Trading.Entries.{consider_each}
use atlas_ai_trading.Trading.Entries.Kept.{consider_each-Gives}
use atlas_ai_trading.Trading.Steps.{Loop, Step, goes_on, stops, symbol_of, with_decision}
use atlas_ai_trading.Trading.Steps.Rules.{Holds, IsClosed, StandsFor}
use atlas_ai_trading.Trading.Tick.{
  Deployed, deployed_for, each_symbol, group, group_all, live_strategies_by_symbol, load_spec,
  next_symbol, spec_of_row, undeployed, visit,
}
use atlas_ai_trading.World.{
  Action, Gives, Strategy, World, bind-Gives_from, live_status, no_strategy, pure-Gives,
}

-- Every group stands under the symbol of its strategies.
abbrev pub Keyed : (Text → Type 0) → Deployed → Type 0
Keyed Q [] = Unit
Keyed Q ((k, ps) ∷ g) = All (λ (p : ℕ × Option StrategySpec). StandsFor Q k p.1) ps × Keyed Q g

module _ (Q : Text → Type 0) where
  group-Keyed :
      (symbol : Text) (p : ℕ × Option StrategySpec) (g : Deployed)
      → StandsFor Q symbol p.1
      → Keyed Q g
      → Keyed Q (group symbol p g)
  unfolding group
  group-Keyed symbol p [] h c = ((h, tt), tt)
  group-Keyed symbol p ((k, ps) ∷ g) h c = elim (Bool-cases (text_eq k symbol)) [
    | inl e ↦
        let same : k ≡ symbol = text_eq-eq k symbol e in
        let here : StandsFor Q k p.1 = subst (λ x. StandsFor Q x p.1) (sym same) h in
        rw e (
          All-append (λ (q : ℕ × Option StrategySpec). StandsFor Q k q.1) ps (p ∷ []) c.0
              (here, tt),
          c.1,
        )
    | inr n ↦ rw n (c.0, group-Keyed symbol p g h c.1)
  ]

  stands_for :
      (s : Option StrategySpec)
      → ((x : StrategySpec) → s ≡ some x → Q x.symbol)
      → StandsFor Q (symbol_of s) s
  stands_for none h = refl
  stands_for (some x) h = (refl, h x refl)

  module _ (v : Service) (w : World)
      (known : (spec_hash : Text) (s : StrategySpec)
        → v.specs spec_hash ≡ some s
        → Q s.symbol) where
    row_known : (row : Option Strategy) (s : StrategySpec) → spec_of_row v row ≡ some s → Q s.symbol
    row_known none s h = absurd cc
    row_known (some r) s h = known r.spec_hash s h

    group_all-Keyed : (is : List ℕ) (g : Deployed) → Keyed Q g → Keyed Q (group_all v w is g)
    unfolding group_all load_spec
    group_all-Keyed [] g c = c
    group_all-Keyed (i ∷ is) g c =
        let row = find (has_strategy_id i) w.strategies in
        let s = load_spec v i w in
        group_all-Keyed is (group (symbol_of s) (i, s) g)
          (group-Keyed (symbol_of s) (i, s) g (stands_for s (row_known row)) c)

    -- The groups of the live strategies, where something is known of the symbols of all specs.
    pub live_strategies-Keyed : Keyed Q (live_strategies_by_symbol v w)
    unfolding live_strategies_by_symbol
    live_strategies-Keyed = group_all-Keyed (list_by_status live_status w) [] tt

  pub deployed_for-StandsFor :
      (symbol : Text) (g : Deployed)
      → Keyed Q g
      → All (λ (p : ℕ × Option StrategySpec). StandsFor Q symbol p.1) (deployed_for symbol g)
  unfolding deployed_for
  deployed_for-StandsFor symbol [] c = tt
  deployed_for-StandsFor symbol ((k, ps) ∷ g) c = elim (Bool-cases (text_eq k symbol)) [
    | inl e ↦
        let same : k ≡ symbol = text_eq-eq k symbol e in
        rw e (subst (λ x. All (λ (p : ℕ × Option StrategySpec). StandsFor Q x p.1) ps) same c.0)
    | inr n ↦ rw n (deployed_for-StandsFor symbol g c.1)
  ]

pub undeployed-outcome :
    (symbol : Text) (series : Option KlineSeries) → (undeployed symbol series).outcome ≡ no_strategy
undeployed-outcome symbol none = refl
undeployed-outcome symbol (some series) = refl

module _ (v : Service) (t : Inputs) (Q : Text → Type 0) (P : Loop → Type 0)
    (closed : IsClosed t Q P) where
  next_symbol-Gives :
      (next : Loop → Action Loop) (s : Step)
      → ((l : Loop) → P l → Gives P (next l))
      → Holds P s
      → Gives P (next_symbol next s)
  next_symbol-Gives next (goes_on l) h c = h l c
  next_symbol-Gives next (stops l) h c = pure-Gives P l c

  visit-Gives :
      (reference : ℕ) (symbol : Text) (ps : List (ℕ × Option StrategySpec))
      (next : Loop → Action Loop) (l : Loop)
      → All (λ (p : ℕ × Option StrategySpec). StandsFor Q symbol p.1) ps
      → ((l' : Loop) → P l' → Gives P (next l'))
      → P l
      → Gives P (visit v t reference symbol ps next l)
  unfolding visit
  visit-Gives reference symbol [] next l a h c =
      let series = series_for symbol t.series_by_symbol in
      let known = undeployed-outcome symbol series in
      h (with_decision (undeployed symbol series) l)
        (closed.plain (undeployed symbol series) l (rw known refl) (rw known refl) c)
  visit-Gives reference symbol (p ∷ ps) next l a h c =
      bind-Gives_from (Holds P) P (consider_each v t reference symbol (p ∷ ps) l) (next_symbol next)
        (consider_each-Gives v t reference Q P closed symbol (p ∷ ps) l a c)
        (λ s d. next_symbol-Gives next s h d)

  pub each_symbol-Gives :
      (reference : ℕ) (g : Deployed) (universe : List Text) (l : Loop)
      → Keyed Q g
      → P l
      → Gives P (each_symbol v t reference g universe l)
  unfolding each_symbol
  each_symbol-Gives reference g [] l k c = pure-Gives P l c
  each_symbol-Gives reference g (symbol ∷ rest) l k c =
      visit-Gives reference symbol (deployed_for symbol g) (each_symbol v t reference g rest) l
        (deployed_for-StandsFor Q symbol g k) (λ l' d. each_symbol-Gives reference g rest l' k d) c
